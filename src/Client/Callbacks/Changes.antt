-- ===== src/Client/Callbacks/Changes.antt =====
-- What each callback, and each message, can do to the state of a client.
use cloud_node.Base.{
  Bool-cases, nat_ord, Text, text, text_ord, pair_ord, ℕ, ◌≡◌, refl, ap, ◌∙◌, subst, inl, inr,
  Option, none, some, List, [], ◌∷◌, arith,
}
use cloud_node.Json.{Json, Run, done, fault, array_member}
use cloud_node.Router.{Kind, dispatch, message_router}
use cloud_node.Router.Laws.{message_router-keeps}
use cloud_node.LocalDescription.{Base64, base64_decode}
use cloud_node.Client.State.{exit, ◌is◌, Key, Client, Env}
use cloud_node.Client.Session
use cloud_node.Client.Session.{
  on_news, left, on_leave_values, on_leave_request, leave_request, peer_set, join_news,
  take_pending_offer, accepted, rejected,
}
use cloud_node.Client.Incoming.{take_received_file}
use cloud_node.Client.Sending.{queue_file, queue_file_to_all}
use cloud_node.Client.Sending.Requests.{queue_file_to_all-requests}
use cloud_node.Client.Peering
use cloud_node.Client.Peering.{
  and_then, answer_offer, all_candidates, candidate_added, described, offer_key, set_description,
  add_candidates, answering,
}
use cloud_node.Client.Callbacks.{
  Callback, opened, message, closed, chunk, data_channel, local_candidate, local_description, asked,
  asked_for_all, taken, stopped, handlers, call,
}
use cloud_node.Client.Callbacks.States.{
  Change, same, begins, stops, Kept, Changed, Kept-Changed, runs_or_same, on_join-Changed,
  on_leave-Kept, on_file_accept-Changed, on_file_reject-Changed, on_ping_pong-Changed,
  on_file_complete-Kept, on_file_offer-Kept, on_incoming_chunk-state,
}

Kept-trans : (c d : Client) (r : Run Client) → d.state ≡ c.state → Kept d r → Kept c r
Kept-trans c d fault e k = tt
Kept-trans c d (done t) e k = k ∙ e

module _ (J : Json) (env : Env) (base64 : Base64) where
  described-state :
      (pc : ℕ) (o : Option Text) (c : Client) → (described env base64 J pc o c).state ≡ c.state
  described-state pc none c = refl
  described-state pc (some sdp) c = refl

  set_description-Kept :
      (pc : ℕ) (o : Option (List J.Value)) (c : Client)
      → Kept c (set_description env base64 J pc o c)
  unfolding set_description
  set_description-Kept pc none c = refl
  set_description-Kept pc (some []) c = tt
  set_description-Kept pc (some (v ∷ vs)) c =
      elim (J.string? v)
        as (λ (s : Option Text). Kept c (elim s [
          | none ↦ fault
          | some encoded ↦ done (described env base64 J pc (base64_decode base64 encoded) c)
        ])) [ none ↦ tt | some encoded ↦ described-state pc (base64_decode base64 encoded) c ]

  candidate_added-state :
      (pc : ℕ) (o : Option Text) (c : Client)
      → (candidate_added env base64 J pc o c).state ≡ c.state
  candidate_added-state pc none c = refl
  candidate_added-state pc (some candidate) c = refl

  add_candidates-Kept :
      (pc : ℕ) (vs : List J.Value) (c : Client) → Kept c (add_candidates env base64 J pc vs c)
  unfolding add_candidates
  add_candidates-Kept pc [] c = refl
  add_candidates-Kept pc (v ∷ vs) c =
      let rest = λ (encoded : Text).
        let d = candidate_added env base64 J pc (base64_decode base64 encoded) c in
        Kept-trans c d (add_candidates env base64 J pc vs d)
          (candidate_added-state pc (base64_decode base64 encoded) c)
          (add_candidates-Kept pc vs d) in
      elim (J.string? v)
        as (λ (s : Option Text). Kept c (elim s [
          | none ↦ fault
          | some encoded ↦
              add_candidates env base64 J pc vs
                (candidate_added env base64 J pc (base64_decode base64 encoded) c)
        ])) [ none ↦ tt | some encoded ↦ rest encoded ]

  all_candidates-Kept :
      (pc : ℕ) (o : Option (List J.Value)) (c : Client)
      → Kept c (all_candidates env base64 J pc o c)
  all_candidates-Kept pc none c = refl
  all_candidates-Kept pc (some vs) c = add_candidates-Kept pc vs c

  and_then-Kept :
      (c : Client) (r : Run Client) (f : Client → Run Client)
      → Kept c r
      → ((d : Client) → Kept d (f d))
      → Kept c (and_then env base64 J r f)
  and_then-Kept c fault f k h = tt
  and_then-Kept c (done d) f k h = Kept-trans c d (f d) k (h d)

  on_offer-Kept : (doc : J.Value) (c : Client) → Kept c (Peering.on_offer env base64 J doc c)
  unfolding Peering.on_offer answering
  on_offer-Kept doc c = by_key (offer_key env base64 J doc)
    where
      by_key : (o : Option Key) → Kept c (answer_offer env base64 J doc o c)
      by_key none = refl
      by_key (some key) =
          and_then-Kept c
            (set_description env base64 J c.fresh (array_member J (text "descriptions") doc)
              (answering env base64 J key c))
            _
            (set_description-Kept c.fresh (array_member J (text "descriptions") doc)
              (answering env base64 J key c))
            (all_candidates-Kept c.fresh (array_member J (text "candidates") doc))

  on_answer-Kept : (doc : J.Value) (c : Client) → Kept c (Peering.on_answer env base64 J doc c)
  unfolding Peering.on_answer
  on_answer-Kept doc c = ground arith

  on_candidate-Kept :
      (doc : J.Value) (c : Client) → Kept c (Peering.on_candidate env base64 J doc c)
  unfolding Peering.on_candidate
  on_candidate-Kept doc c = ground arith

  dispatch-Changed :
      (kind : Kind) (doc : J.Value) (c : Client)
      → Changed c (dispatch J (handlers J env base64) kind doc c)
  unfolding dispatch
  dispatch-Changed Kind.join doc c = on_join-Changed J env doc c
  dispatch-Changed Kind.leave doc c = Kept-Changed c _ (on_leave-Kept J env doc c)
  dispatch-Changed Kind.file_accept doc c = on_file_accept-Changed J env doc c
  dispatch-Changed Kind.file_reject doc c = on_file_reject-Changed J env doc c
  dispatch-Changed Kind.offer doc c = Kept-Changed c _ (on_offer-Kept doc c)
  dispatch-Changed Kind.answer doc c = Kept-Changed c _ (on_answer-Kept doc c)
  dispatch-Changed Kind.candidate doc c = Kept-Changed c _ (on_candidate-Kept doc c)
  dispatch-Changed Kind.file_offer doc c = Kept-Changed c _ (on_file_offer-Kept J env doc c)
  dispatch-Changed Kind.file_complete doc c = Kept-Changed c _ (on_file_complete-Kept J env doc c)
  dispatch-Changed Kind.ping_pong doc c = on_ping_pong-Changed J env doc c
  dispatch-Changed Kind.unhandled doc c = same refl

  Change-of_Changed :
      (c : Client) (r : Run Client) {d : Client} → Changed c r → r ≡ done d → Change c.state d.state
  Change-of_Changed c r {d} h e = subst (Changed c) e h

  message-Change :
      (json : Text) (c : Client) {d : Client}
      → message_router J (handlers J env base64) json c ≡ done d
      → Change c.state d.state
  message-Change json c {d} h =
      message_router-keeps J (handlers J env base64) (λ (t : Client). Change c.state t.state) json c
        (λ kind doc e. Change-of_Changed c _ (dispatch-Changed kind doc c) e) (same refl) h

  queue_file-state :
      (name room path : Text) (c : Client) → (queue_file name room path c).0.state ≡ c.state
  unfolding queue_file
  queue_file-state name room path c = ground arith

  queue_file_to_all-state :
      (path : Text) (c : Client) → (queue_file_to_all path c).0.state ≡ c.state
  queue_file_to_all-state path c =
      ap (λ ((d, n) : Client × ℕ). d.state) (queue_file_to_all-requests path c) ∙ ground arith

  on_data_channel-state :
      (key : Key) (channel : ℕ) (c : Client)
      → (Peering.on_data_channel env base64 key channel c).state ≡ c.state
  unfolding Peering.on_data_channel
  on_data_channel-state key channel c = ground arith

  on_local_candidate-state :
      (key : Key) (candidate mid : Text) (c : Client)
      → (Peering.on_local_candidate env base64 key candidate mid c).state ≡ c.state
  unfolding Peering.on_local_candidate
  on_local_candidate-state key candidate mid c = ground arith

  on_local_description-state :
      (key : Key) (description type : Text) (c : Client)
      → (Peering.on_local_description env base64 key description type c).state ≡ c.state
  unfolding Peering.on_local_description
  on_local_description-state key description type c = ground arith

  on_message_close-Change : (c : Client) → Change c.state (Session.on_message_close c).state
  unfolding Session.on_message_close
  on_message_close-Change c = elim (Bool-cases (c.state is exit)) [
    | inl e ↦ rw e (same refl)
    | inr e ↦ rw e (begins refl)
  ]

  -- Whatever another thread does to a client, by a message, another callback or a call: the state is
  -- as it was, or begins anew, runs or is stopped, or it was waiting for a join and is joined.
  pub call-Change :
      (b : Callback) (c : Client) {d : Client}
      → call J env base64 b c ≡ done d
      → Change c.state d.state
  unfolding call Session.on_message_open Session.stop take_received_file
  call-Change opened c h = Change-of_Changed c _ (same refl) h
  call-Change (message json) c h = message-Change json c h
  call-Change closed c h = Change-of_Changed c _ (on_message_close-Change c) h
  call-Change (chunk key bytes) c h =
      Change-of_Changed c _ (runs_or_same (on_incoming_chunk-state J env key bytes c)) h
  call-Change (data_channel key channel) c h =
      Change-of_Changed c _ (same (on_data_channel-state key channel c)) h
  call-Change (local_candidate key candidate mid) c h =
      Change-of_Changed c _ (same (on_local_candidate-state key candidate mid c)) h
  call-Change (local_description key description type) c h =
      Change-of_Changed c _ (same (on_local_description-state key description type c)) h
  call-Change (asked name room path) c h =
      Change-of_Changed c _ (same (queue_file-state name room path c)) h
  call-Change (asked_for_all path) c h =
      Change-of_Changed c _ (same (queue_file_to_all-state path c)) h
  call-Change (taken path) c h = Change-of_Changed c (done _) (same refl) h
  call-Change stopped c h = Change-of_Changed c (done _) (stops refl) h
