-- ===== src/Client/Sending/Roundtrip.antt =====
-- An offer, from its message to the answer.
use cloud_node.Base.{
  if◌then◌else◌, ◌==◌, ==_iff, ==_refl, nat_ord, Text, text, text_ord, pair_ord, ℕ, ◌≡◌, refl, ap,
  ◌∙◌, true, false, Option, none, some, [], ◌∷◌, ◌++◌, arith,
}
use cloud_node.Base.Dict.{lookup, insert, erase, lookup-insert, lookup-erase}
use cloud_node.Json.{Json, done, string_member}
use cloud_node.Client.State.{run, Client, Env, PendingOffer}
use cloud_node.Client.Session.{file_queue, on_file_accept}
use cloud_node.Client.Session.Decisions.{waiting, on_file_accept-once}
use cloud_node.Client.Sending.{
  Files, tracked, offered, offer_details, offer_payload, send_file_offer,
}

module _ (J : Json) (env : Env) (files : Files) where
  -- The client that waits for the answer to an offer.
  abbrev pub asking : Text → Text → Text → Text → Text → Client → Client
  asking uuid room peer path details c = record (tracked env uuid (peer, room) path c) {
    sent = c.sent ++ offer_payload env uuid room peer details ∷ [];
  }

  pub send_file_offer-asking :
      (uuid room peer path details : Text) (c : Client)
      → offer_details env files room peer path c ≡ some details
      → env.takes (offer_payload env uuid room peer details) ≡ true
      → send_file_offer env files uuid room peer path c
        ≡ (asking uuid room peer path details c, true)
  unfolding send_file_offer
  send_file_offer-asking uuid room peer path details c o t =
      ap (λ (x : Option Text). offered env uuid room peer path x c) o ∙ rw t refl

  -- An offer that passes its checks and whose message is taken, and then an acceptance with its
  -- identifier: the message was sent last, the path stands once at the end of the channel's file
  -- queue, and the client runs.
  pub send_file_offer-on_file_accept :
      (doc : J.Value) (uuid room peer path details : Text) (q : ℕ) (c : Client)
      → offer_details env files room peer path c ≡ some details
      → env.takes (offer_payload env uuid room peer details) ≡ true
      → string_member J (text "uuid") doc ≡ some uuid
      → file_queue J env (lookup (peer, room) c.data_channels) ≡ some q
      → (d : Client) × (e : Client) × (send_file_offer env files uuid room peer path c ≡ (d, true))
        × (d.sent ≡ c.sent ++ offer_payload env uuid room peer details ∷ [])
        × (on_file_accept J env doc d ≡ done e)
        × (waiting q e ≡ waiting q c ++ path ∷ [])
        × (e.state ≡ run)
  send_file_offer-on_file_accept doc uuid room peer path details q c o t u f =
      let offer : PendingOffer = record { key = (peer, room); path = path } in
      let d = asking uuid room peer path details c in
      let pending : lookup uuid d.pending_offers ≡ some offer =
        ground (arith, ==_refl uuid, lookup-insert uuid uuid offer c.pending_offers) in
      let (e, accepted, queued, state, gone, again) =
        on_file_accept-once J env doc uuid offer q d u pending f in
      (
        d,
        e,
        send_file_offer-asking uuid room peer path details c o t,
        refl,
        accepted,
        queued,
        state,
      )

  -- An offer that passes its checks and whose message is not taken: nothing is sent, the offer is not
  -- pending and the others are as before, and the client runs.
  pub send_file_offer-refused :
      (uuid room peer path details : Text) (c : Client)
      → offer_details env files room peer path c ≡ some details
      → env.takes (offer_payload env uuid room peer details) ≡ false
      → (d : Client) × (send_file_offer env files uuid room peer path c ≡ (d, false))
        × (d.sent ≡ c.sent)
        × ((k : Text)
            → lookup k d.pending_offers ≡ (if k == uuid then none else lookup k c.pending_offers))
        × (d.state ≡ run)
  unfolding send_file_offer
  send_file_offer-refused uuid room peer path details c o t =
      let offer : PendingOffer = record { key = (peer, room); path = path } in
      (
        record c { pending_offers = erase uuid (insert uuid offer c.pending_offers); state = run },
        ap (λ (x : Option Text). offered env uuid room peer path x c) o ∙ rw t refl,
        refl,
        λ k. ground (
          arith,
          ==_iff k uuid,
          lookup-erase k uuid (insert uuid offer c.pending_offers),
          lookup-insert k uuid offer c.pending_offers,
        ),
        refl,
      )
