-- ===== src/Client/Peering/Answering.antt =====
-- `OnOffer` of src/WebRTCClient.cpp: what is asked of the connection that answers an offer.
use cloud_node.Base.{
  nat_ord, Text, text, text_ord, pair_ord, ℕ, ◌≡◌, refl, sym, ap, ◌∙◌, Option, none, some, List, [],
  ◌∷◌, ◌++◌, append-nil, append_assoc,
}
use cloud_node.Json.{Json, done, string_member, array_member}
use cloud_node.LocalDescription.{Base64, base64_decode}
use cloud_node.Client.State.{
  RtcCall, set_remote_description, create_answer, add_remote_candidate, Client, Env,
}
use cloud_node.Client.Peering.{
  set_description, add_candidates, answering, candidate_added, described, offer_key, answer_offer,
  all_candidates, and_then, on_offer,
}

-- What an offer's description, and its candidates, ask of a connection, in their order; what base64
-- does not decode asks for nothing.
abbrev pub description_calls : ℕ → Option Text → List RtcCall
description_calls pc none = []
description_calls pc (some sdp) =
    set_remote_description pc sdp (text "offer") ∷ create_answer pc ∷ []

abbrev pub candidate_call : ℕ → Option Text → List RtcCall
candidate_call pc none = []
candidate_call pc (some candidate) = add_remote_candidate pc candidate (text "0") ∷ []

abbrev pub candidate_calls : Base64 → ℕ → List Text → List RtcCall
candidate_calls base64 pc [] = []
candidate_calls base64 pc (encoded ∷ rest) =
    candidate_call pc (base64_decode base64 encoded) ++ candidate_calls base64 pc rest

module _ (env : Env) (base64 : Base64) (J : Json) where
  -- The values are strings, and these.
  abbrev pub Strings : List J.Value → List Text → Type 0
  Strings [] [] = Unit {0}
  Strings (v ∷ vs) (t ∷ ts) = (J.string? v ≡ some t) × Strings vs ts
  Strings _ _ = ⊥

  abbrev asked : List RtcCall → Client → Client
  asked calls c = record c { calls = c.calls ++ calls }

  described-asked :
      (pc : ℕ) (o : Option Text) (c : Client)
      → described env base64 J pc o c ≡ asked (description_calls pc o) c
  described-asked pc none c = ap (λ l. record c { calls = l }) (sym (append-nil c.calls))
  described-asked pc (some sdp) c =
      ap (λ l. record c { calls = l })
        (append_assoc c.calls (set_remote_description pc sdp (text "offer") ∷ [])
          (create_answer pc ∷ []))

  candidate_added-asked :
      (pc : ℕ) (o : Option Text) (c : Client)
      → candidate_added env base64 J pc o c ≡ asked (candidate_call pc o) c
  candidate_added-asked pc none c = ap (λ l. record c { calls = l }) (sym (append-nil c.calls))
  candidate_added-asked pc (some candidate) c = refl

  add_candidates-asked :
      (pc : ℕ) (vs : List J.Value) (ts : List Text) (c : Client)
      → Strings vs ts
      → add_candidates env base64 J pc vs c ≡ done (asked (candidate_calls base64 pc ts) c)
  unfolding add_candidates
  add_candidates-asked pc [] [] c h =
      ap (λ l. done (record c { calls = l })) (sym (append-nil c.calls))
  add_candidates-asked pc [] (t ∷ ts) c h = absurd h
  add_candidates-asked pc (v ∷ vs) [] c h = absurd h
  add_candidates-asked pc (v ∷ vs) (t ∷ ts) c (h, hs) =
      rw (h, add_candidates)
        (ap (add_candidates env base64 J pc vs)
            (candidate_added-asked pc (base64_decode base64 t) c)
          ∙ (add_candidates-asked pc vs ts (asked (candidate_call pc (base64_decode base64 t)) c) hs
              ∙ ap (λ l. done (record c { calls = l }))
                  (append_assoc c.calls (candidate_call pc (base64_decode base64 t))
                    (candidate_calls base64 pc ts))))

  set_description-asked :
      (pc : ℕ) (v : J.Value) (vs : List J.Value) (t : Text) (c : Client)
      → J.string? v ≡ some t
      → set_description env base64 J pc (some (v ∷ vs)) c
        ≡ done (asked (description_calls pc (base64_decode base64 t)) c)
  unfolding set_description
  set_description-asked pc v vs t c h =
      rw (h, set_description) (ap done (described-asked pc (base64_decode base64 t) c))

  -- An offer of a named peer and room, whose descriptions are an array that starts with a string and
  -- whose candidates are an array of strings: a fresh connection with a fresh queue is stored for the
  -- peer and the room, and of this connection there is asked, in this order, to take the description
  -- as an offer and to answer it, if base64 decodes it, and to take each candidate that base64 decodes.
  pub on_offer-calls :
      (doc : J.Value) (peer room description : Text) (candidates : List Text) (v : J.Value)
      (vs ws : List J.Value) (c : Client)
      → string_member J (text "peer") doc ≡ some peer
      → string_member J (text "room") doc ≡ some room
      → array_member J (text "descriptions") doc ≡ some (v ∷ vs)
      → J.string? v ≡ some description
      → array_member J (text "candidates") doc ≡ some ws
      → Strings ws candidates
      → on_offer env base64 J doc c
        ≡ done (
            asked
              (description_calls c.fresh (base64_decode base64 description)
                ++ candidate_calls base64 c.fresh candidates)
              (answering env base64 J (peer, room) c))
  unfolding on_offer
  on_offer-calls doc peer room description candidates v vs ws c p r d s w h =
      let key_is : offer_key env base64 J doc ≡ some (peer, room) = rw (p, r) refl in
      let start = answering env base64 J (peer, room) c in
      let calls = description_calls c.fresh (base64_decode base64 description) in
      ap (λ k. answer_offer env base64 J doc k c) key_is
      ∙ (ap
            (λ o.
              and_then env base64 J (set_description env base64 J c.fresh o start)
                (all_candidates env base64 J c.fresh (array_member J (text "candidates") doc)))
            d
          ∙ (ap
                (λ r.
                  and_then env base64 J r
                    (all_candidates env base64 J c.fresh (array_member J (text "candidates") doc)))
                (set_description-asked c.fresh v vs description start s)
              ∙ (ap (λ o. all_candidates env base64 J c.fresh o (asked calls start)) w
                  ∙ (add_candidates-asked c.fresh ws candidates (asked calls start) h
                      ∙ ap (λ l. done (record start { calls = l }))
                          (append_assoc start.calls calls
                            (candidate_calls base64 c.fresh candidates))))))
