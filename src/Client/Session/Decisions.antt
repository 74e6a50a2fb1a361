-- ===== src/Client/Session/Decisions.antt =====
-- The answers to a client's own offers: `OnFileAccept` and `OnFileReject`.
use cloud_node.Base.{
  if◌then◌else◌, Bool-cases, ==_refl, nat_ord, Text, text, text_ord, pair_ord, ℕ, ◌≡◌, refl, ap,
  ◌∙◌, inl, inr, Option, none, some, List, [], ◌∷◌, ◌++◌, arith,
}
use cloud_node.Base.Dict.{lookup, erase, lookup-insert, lookup-erase}
use cloud_node.Json.{Json, done, string_member}
use cloud_node.Client.State.{
  ClientState, run, wait_for_file_accept, ◌is◌, PendingOffer, Client, Env,
}
use cloud_node.Client.Session.{
  take_pending_offer, resumed, add_item, file_queue, accepted, rejected, on_file_accept,
  on_file_reject,
}

-- The paths that wait in a file queue.
abbrev pub waiting : ℕ → Client → List Text
waiting q c = elim (lookup q c.queues) [ none ↦ [] | some paths ↦ paths ]

-- The state after an answer.
abbrev pub after_answer : ClientState → ClientState
after_answer s = if s is wait_for_file_accept then run else s

module _ (J : Json) (env : Env) where
  abbrev untracked : Text → Client → Client
  untracked uuid c = record c { pending_offers = erase uuid c.pending_offers }

  take-tracked :
      (doc : J.Value) (uuid : Text) (offer : PendingOffer) (c : Client)
      → string_member J (text "uuid") doc ≡ some uuid
      → lookup uuid c.pending_offers ≡ some offer
      → take_pending_offer J env doc c ≡ (untracked uuid c, some offer)
  unfolding take_pending_offer
  take-tracked doc uuid offer c h l = ground (arith, h, l)

  take-untracked :
      (doc : J.Value) (uuid : Text) (c : Client)
      → string_member J (text "uuid") doc ≡ some uuid
      → lookup uuid c.pending_offers ≡ none
      → take_pending_offer J env doc c ≡ (c, none)
  unfolding take_pending_offer
  take-untracked doc uuid c h l = ground (arith, h, l)

  lookup-untracked :
      (uuid : Text) (c : Client) → lookup uuid (untracked uuid c).pending_offers ≡ none
  lookup-untracked uuid c = ground (arith, ==_refl uuid, lookup-erase uuid uuid c.pending_offers)

  on_file_accept-accepted :
      (doc : J.Value) (uuid : Text) (offer : PendingOffer) (c : Client)
      → string_member J (text "uuid") doc ≡ some uuid
      → lookup uuid c.pending_offers ≡ some offer
      → on_file_accept J env doc c ≡ done (accepted J env (some offer) (untracked uuid c))
  unfolding on_file_accept
  on_file_accept-accepted doc uuid offer c h l =
      ap (λ ((t, o) : Client × Option PendingOffer). done (accepted J env o t))
        (take-tracked doc uuid offer c h l)

  on_file_accept-ignored :
      (doc : J.Value) (uuid : Text) (c : Client)
      → string_member J (text "uuid") doc ≡ some uuid
      → lookup uuid c.pending_offers ≡ none
      → on_file_accept J env doc c ≡ done c
  unfolding on_file_accept
  on_file_accept-ignored doc uuid c h l =
      ap (λ ((t, o) : Client × Option PendingOffer). done (accepted J env o t))
        (take-untracked doc uuid c h l)

  on_file_reject-rejected :
      (doc : J.Value) (uuid : Text) (offer : PendingOffer) (c : Client)
      → string_member J (text "uuid") doc ≡ some uuid
      → lookup uuid c.pending_offers ≡ some offer
      → on_file_reject J env doc c ≡ done (resumed J env (untracked uuid c))
  unfolding on_file_reject
  on_file_reject-rejected doc uuid offer c h l =
      ap (λ ((t, o) : Client × Option PendingOffer). done (rejected J env o t))
        (take-tracked doc uuid offer c h l)

  -- An acceptance of a pending offer whose channel has a file queue: the offer's path stands once at
  -- the end of that queue, a client that waited for the answer runs, any other state stays, and the
  -- offer is no longer pending, so that the same acceptance or a rejection after it changes nothing.
  pub on_file_accept-once :
      (doc : J.Value) (uuid : Text) (offer : PendingOffer) (q : ℕ) (c : Client)
      → string_member J (text "uuid") doc ≡ some uuid
      → lookup uuid c.pending_offers ≡ some offer
      → file_queue J env (lookup offer.key c.data_channels) ≡ some q
      → (d : Client) × (on_file_accept J env doc c ≡ done d)
        × (waiting q d ≡ waiting q c ++ offer.path ∷ [])
        × (d.state ≡ after_answer c.state)
        × (lookup uuid d.pending_offers ≡ none)
        × (on_file_accept J env doc d ≡ done d)
  on_file_accept-once doc uuid offer q c h l f =
      let d = resumed J env (add_item J env q offer.path (untracked uuid c)) in
      let gone : lookup uuid d.pending_offers ≡ none =
        elim (Bool-cases (c.state is wait_for_file_accept)) [
          | inl e ↦ rw e (lookup-untracked uuid c)
          | inr e ↦ rw e (lookup-untracked uuid c)
        ] in
      (
        d,
        on_file_accept-accepted doc uuid offer c h l ∙ rw (f, accepted) refl,
        ground (arith, ==_refl q, lookup-insert q q (waiting q c ++ offer.path ∷ []) c.queues),
        ground arith,
        gone,
        on_file_accept-ignored doc uuid d h gone,
      )

  -- An acceptance of a pending offer whose channel is gone uses the offer up, and a client that
  -- waited for the answer goes on waiting: nothing else changes, and no later answer with that
  -- identifier is heeded.
  pub on_file_accept-stranded :
      (doc : J.Value) (uuid : Text) (offer : PendingOffer) (c : Client)
      → string_member J (text "uuid") doc ≡ some uuid
      → lookup uuid c.pending_offers ≡ some offer
      → file_queue J env (lookup offer.key c.data_channels) ≡ none
      → (d : Client) × (on_file_accept J env doc c ≡ done d)
        × (d ≡ record c { pending_offers = erase uuid c.pending_offers })
        × (on_file_accept J env doc d ≡ done d)
  on_file_accept-stranded doc uuid offer c h l f = (
    untracked uuid c,
    on_file_accept-accepted doc uuid offer c h l ∙ rw (f, accepted) refl,
    refl,
    on_file_accept-ignored doc uuid (untracked uuid c) h (lookup-untracked uuid c),
  )

  -- A rejection of a pending offer takes it from the pending ones, and lets a client that waited for
  -- the answer run; nothing else changes. An acceptance after it changes nothing.
  pub on_file_reject-once :
      (doc : J.Value) (uuid : Text) (offer : PendingOffer) (c : Client)
      → string_member J (text "uuid") doc ≡ some uuid
      → lookup uuid c.pending_offers ≡ some offer
      → (d : Client) × (on_file_reject J env doc c ≡ done d)
        × (d ≡ record c {
          pending_offers = erase uuid c.pending_offers;
          state = after_answer c.state;
        })
        × (on_file_accept J env doc d ≡ done d)
  on_file_reject-once doc uuid offer c h l =
      let d = record c {
        pending_offers = erase uuid c.pending_offers;
        state = after_answer c.state;
      } in
      (
        d,
        on_file_reject-rejected doc uuid offer c h l ∙ ground arith,
        refl,
        on_file_accept-ignored doc uuid d h (lookup-untracked uuid c),
      )
