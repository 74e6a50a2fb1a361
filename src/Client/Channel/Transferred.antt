-- ===== src/Client/Channel/Transferred.antt =====
-- A file from the sender's disk to the receiver's.
use cloud_node.Base.{
  length, nat_ord, Text, text_ord, pair_ord, ℕ, ◌+◌, ◌<◌, ◌≡◌, ap, subst, true, false, none, some,
  List,
}
use cloud_node.Base.Dict.{lookup}
use cloud_node.Json.{Json, done, pos}
use cloud_node.Client.FilePath.{offered_name, destination}
use cloud_node.Client.State.{Key, Client, Env}
use cloud_node.Client.Incoming.Transfer.{deliver}
use cloud_node.Client.Offering.{Offer, offer_of, same_crc, on_file_offer}
use cloud_node.Client.Offering.Delivery.{IsWhole, on_file_offer-deliver}
use cloud_node.Client.Channel.{read_chunks}
use cloud_node.Client.Channel.Reading.{read_chunks-ends}

module _ (J : Json) (env : Env) where
  -- A file that is not empty, read in chunks of at most `size` bytes where `size` is not 0, after an
  -- offer of its length that the receiver can take up as in the delivery of an offer: the reading
  -- ends, and with its chunks the receiver has exactly the bytes of the file.
  pub read_chunks-IsWhole :
      (doc : J.Value) (offer : Offer) (names : List Text) (size : ℕ) (file : Text) (c : Client)
      → 0 < size
      → 0 < length file
      → offer_of J env doc ≡ some offer
      → offered_name offer.name ≡ some names
      → offer.size ≡ pos (length file)
      → lookup (offer.peer, offer.room) c.incoming_files ≡ none
      → env.prepares (destination env.directory names) ≡ true
      → same_crc J env offer.crc (env.crc (destination env.directory names)) ≡ false
      → env.lockable (destination env.directory names) ≡ true
      → env.openable (destination env.directory names) ≡ true
      → env.writable (destination env.directory names) ≡ true
      → (chunks : List Text) × (d : Client) × (read_chunks (length file + 1) size file
          ≡ some chunks)
        × (on_file_offer J env doc c ≡ done d)
        × IsWhole J env
            (destination env.directory names)
            (offer.peer, offer.room)
            file
            (deliver env (offer.peer, offer.room) chunks d)
  read_chunks-IsWhole doc offer names size file c p q o g s l a n k b w =
      let (chunks, e, whole, fit) = read_chunks-ends size file p in
      let (d, h, r) =
        on_file_offer-deliver J env doc offer names (length file) chunks c o g s q (ap length whole)
          l a n k b w in
      let key : Key = (offer.peer, offer.room) in
      (
        chunks,
        d,
        e,
        h,
        subst
            (λ (t : Text).
              IsWhole J env (destination env.directory names) key t (deliver env key chunks d))
            whole r,
      )
