-- ===== src/Client/Offering/Delivery.antt =====
-- The file that comes of an offer, and what happens where it cannot be opened.
use cloud_node.Base.{
  length, ==_refl, nat_ord, Text, text, text_ord, pair_ord, ℕ, zero, suc, ◌<◌, ◌≡◌, refl, ap, ◌∙◌,
  true, false, not, ◌||◌, Option, none, some, List, [], ◌∷◌, ◌++◌, arith,
}
use cloud_node.Base.Dict.{lookup, erase, insert, lookup-insert, lookup-erase}
use cloud_node.Base.Set
use cloud_node.Json.{Json, done, ℤ, pos, string_member}
use cloud_node.Client.FilePath.{offered_name, destination}
use cloud_node.Client.State.{run, Key, IncomingFile, Client, Env}
use cloud_node.Client.Incoming.{start_next_incoming, contents}
use cloud_node.Client.Incoming.Transfer.{front, deliver, concat, deliver-IsReceived}
use cloud_node.Client.Offering.{
  Offer, offer_of, on_offered, received_as, same_crc, queue_of, appended, file_accept,
  enqueue_incoming, receive_at, send_file_accept, on_file_offer,
}
use cloud_node.Client.Offering.Outcome.{send_file_accept-IsAnswered}

module _ (J : Json) (env : Env) where
  -- The file at a path holds the bytes, the path is noted, and the client runs with no queue left
  -- for the sender.
  pub record IsWhole (path : Text) (key : Key) (bytes : Text) (d : Client) : Type 0 where
    pub on_disk : contents env path d.disk ≡ bytes
    pub noted : Set.contains (env.absolute path) d.received_paths ≡ true
    pub emptied : lookup key d.incoming_files ≡ none
    pub running : d.state ≡ run

  -- The client with a file open at its start, alone in its queue.
  abbrev pub opened : Key → Text → ℕ → Client → Client
  opened key path m c = record c {
    incoming_files = insert key (front path m 0 ∷ []) c.incoming_files;
    disk = insert path [] c.disk;
  }

  enqueue_incoming-opened :
      (key : Key) (path : Text) (m : ℕ) (c : Client)
      → 0 < m
      → lookup key c.incoming_files ≡ none
      → env.lockable path ≡ true
      → env.openable path ≡ true
      → enqueue_incoming J env key path (pos m) c ≡ opened key path m c
  unfolding enqueue_incoming start_next_incoming
  enqueue_incoming-opened key path zero c z h l o = absurd (omega (arith, z))
  enqueue_incoming-opened key path (suc m) c z h l o =
      ap
        (λ (q : Option (List IncomingFile)).
          appended J env key
            (record {
              destination = path;
              expected_size = pos (suc m);
              is_open = false;
              written = 0;
            })
            (queue_of J env q) c)
        h
      ∙ rw (l, o) refl

  -- The client that has accepted an offer of a file that it can open.
  receive_at-opened :
      (doc : J.Value) (offer : Offer) (path : Text) (m : ℕ) (c : Client)
      → offer.size ≡ pos m
      → 0 < m
      → lookup (offer.peer, offer.room) c.incoming_files ≡ none
      → env.prepares path ≡ true
      → same_crc J env offer.crc (env.crc path) ≡ false
      → env.lockable path ≡ true
      → env.openable path ≡ true
      → receive_at J env doc offer path c
        ≡ send_file_accept J env doc (opened (offer.peer, offer.room) path m c)
  unfolding receive_at
  receive_at-opened doc offer path m c s z a p n l o =
      rw (p, n, s, enqueue_incoming-opened (offer.peer, offer.room) path m c z a l o) refl

  pub on_file_offer-opened :
      (doc : J.Value) (offer : Offer) (names : List Text) (m : ℕ) (c : Client)
      → offer_of J env doc ≡ some offer
      → offered_name offer.name ≡ some names
      → offer.size ≡ pos m
      → 0 < m
      → lookup (offer.peer, offer.room) c.incoming_files ≡ none
      → env.prepares (destination env.directory names) ≡ true
      → same_crc J env offer.crc (env.crc (destination env.directory names)) ≡ false
      → env.lockable (destination env.directory names) ≡ true
      → env.openable (destination env.directory names) ≡ true
      → on_file_offer J env doc c
        ≡ done (
            send_file_accept J env doc
              (opened (offer.peer, offer.room) (destination env.directory names) m c))
  unfolding on_file_offer
  on_file_offer-opened doc offer names m c d g s z a p n l o =
      ap (λ (x : Option Offer). done (on_offered J env doc x c)) d
      ∙ ap (λ (x : Option (List Text)). done (received_as J env doc offer x c)) g
      ∙ ap (λ (x : Client). done x)
          (receive_at-opened doc offer (destination env.directory names) m c s z a p n l o)

  -- An offer of a file of `m` bytes, with a name that a path below the directory resolves and from
  -- a sender with no other file on its way, which is not there with the same CRC and can be locked,
  -- opened and written: after the chunks of its `m` bytes, the file holds exactly these, its path is
  -- noted as received, the sender's queue is gone, and the client runs.
  pub on_file_offer-deliver :
      (doc : J.Value) (offer : Offer) (names : List Text) (m : ℕ) (chunks : List Text) (c : Client)
      → offer_of J env doc ≡ some offer
      → offered_name offer.name ≡ some names
      → offer.size ≡ pos m
      → 0 < m
      → length (concat chunks) ≡ m
      → lookup (offer.peer, offer.room) c.incoming_files ≡ none
      → env.prepares (destination env.directory names) ≡ true
      → same_crc J env offer.crc (env.crc (destination env.directory names)) ≡ false
      → env.lockable (destination env.directory names) ≡ true
      → env.openable (destination env.directory names) ≡ true
      → env.writable (destination env.directory names) ≡ true
      → (d : Client) × (on_file_offer J env doc c ≡ done d)
        × IsWhole
            (destination env.directory names)
            (offer.peer, offer.room)
            (concat chunks)
            (deliver env (offer.peer, offer.room) chunks d)
  on_file_offer-deliver doc offer names m chunks c d g s z t a p n l o w =
      let path = destination env.directory names in
      let key : Key = (offer.peer, offer.room) in
      let e = opened key path m c in
      let answered = send_file_accept-IsAnswered J env doc e in
      let start = send_file_accept J env doc e in
      let queued : lookup key start.incoming_files ≡ some (front path m 0 ∷ []) =
        ap (lookup key) answered.incoming_files
        ∙ ground
            (arith, ==_refl key, lookup-insert key key (front path m 0 ∷ []) c.incoming_files) in
      let r = deliver-IsReceived env key path m w chunks 0 start queued z (omega (arith, t)) in
      let empty : contents env path start.disk ≡ [] =
        ap (contents env path) answered.disk
        ∙ ground (arith, ==_refl path, lookup-insert path path [] c.disk) in
      (
        start,
        on_file_offer-opened doc offer names m c d g s z a p n l o,
        record {
          on_disk = r.on_disk ∙ ap (λ (x : Text). x ++ concat chunks) empty;
          noted = r.noted;
          emptied = r.emptied;
          running = r.running;
        },
      )

  -- The client when nothing comes of a file that is alone in its queue.
  abbrev skipped : Key → Client → Client
  skipped key c = record c { incoming_files = erase key c.incoming_files }

  enqueue_incoming-skipped :
      (key : Key) (path : Text) (size : ℤ) (c : Client)
      → lookup key c.incoming_files ≡ none
      → not (env.lockable path) || not (env.openable path) ≡ true
      → enqueue_incoming J env key path size c ≡ skipped key c
  unfolding enqueue_incoming start_next_incoming
  enqueue_incoming-skipped key path size c h u =
      ap
        (λ (q : Option (List IncomingFile)).
          appended J env key
            (record { destination = path; expected_size = size; is_open = false; written = 0 })
            (queue_of J env q) c)
        h
      ∙ rw u refl

  -- An offer whose file cannot be locked or opened is accepted all the same: where the offer names
  -- its sender and the port takes the message, the last message sent is the acceptance, while
  -- nothing is queued for the sender and the disk is as before.
  pub receive_at-unopened :
      (doc : J.Value) (offer : Offer) (path : Text) (c : Client)
      → string_member J (text "peer") doc ≡ some offer.peer
      → env.takes (file_accept J env doc offer.peer) ≡ true
      → lookup (offer.peer, offer.room) c.incoming_files ≡ none
      → env.prepares path ≡ true
      → same_crc J env offer.crc (env.crc path) ≡ false
      → not (env.lockable path) || not (env.openable path) ≡ true
      → ((receive_at J env doc offer path c).sent ≡ c.sent ++ file_accept J env doc offer.peer ∷ [])
        × (lookup (offer.peer, offer.room) (receive_at J env doc offer path c).incoming_files
            ≡ none)
        × ((receive_at J env doc offer path c).disk ≡ c.disk)
  unfolding receive_at send_file_accept
  receive_at-unopened doc offer path c s k a p n u =
      let key : Key = (offer.peer, offer.room) in
      let e : receive_at J env doc offer path c
          ≡ record (skipped key c) { sent = c.sent ++ file_accept J env doc offer.peer ∷ [] } =
        rw (p, n, enqueue_incoming-skipped key path offer.size c a u) (ground (arith, s, k)) in
      (
        ap (λ (d : Client). d.sent) e,
        ap (λ (d : Client). lookup key d.incoming_files) e
            ∙ ground (arith, ==_refl key, lookup-erase key key c.incoming_files),
        ap (λ (d : Client). d.disk) e,
      )
