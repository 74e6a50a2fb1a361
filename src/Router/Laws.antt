-- ===== src/Router/Laws.antt =====
-- The protocol's message types, and where the router takes them.
use cloud_node.Base.{
  Bool-cases, All, ◌==◌, ==_iff, nat_ord, Text, text, text_cmp, text_ord, pair_ord, ◌≡◌, refl,
  subst, inl, inr, true, Option, none, some, [], ◌∷◌, arith,
}
use cloud_node.Base.Dict.{Dict, lookup}
use cloud_node.Json.{Json, done, string_member}
use cloud_node.Router.{Kind, Handlers, kind_of, dispatch, route_type, route_doc, message_router}

-- The labels of the switch, with the handler that each is meant for.
abbrev pub protocol : Dict Text Kind
protocol =
    (text "join", Kind.join)
    ∷ (text "peer_joined", Kind.join)
    ∷ (text "peer_left", Kind.leave)
    ∷ (text "leave", Kind.leave)
    ∷ (text "file_accept", Kind.file_accept)
    ∷ (text "file_reject", Kind.file_reject)
    ∷ (text "offer", Kind.offer)
    ∷ (text "answer", Kind.answer)
    ∷ (text "candidate", Kind.candidate)
    ∷ (text "file_offer", Kind.file_offer)
    ∷ (text "file_complete", Kind.file_complete)
    ∷ (text "ping", Kind.ping_pong)
    ∷ (text "pong", Kind.ping_pong)
    ∷ []

All-lookup :
    (P : Text × Kind → Type 0) (k : Text) {v : Kind} (m : Dict Text Kind)
    → All P m
    → lookup k m ≡ some v
    → P (k, v)
unfolding lookup
All-lookup P k [] a h = absurd (cc)
All-lookup P k {v} ((j, w) ∷ m) a h = elim (Bool-cases (k == j)) [
  | inl e ↦ subst (λ x. P x) (pair e) a.0
  | inr e ↦ All-lookup P k m a.1 (rw (← h, e))
]
  where
    pair : (k == j) ≡ true → ◌≡◌ {A = Text × Kind} (j, w) (k, v)
    pair e = ground (arith, ==_iff k j)

kind_of-protocol : All (λ (type, kind). kind_of type ≡ kind) protocol
unfolding kind_of
kind_of-protocol = (
  refl,
  (
    refl,
    (refl, (refl, (refl, (refl, (refl, (refl, (refl, (refl, (refl, (refl, (refl, tt))))))))))),
  ),
)

kind_of-lookup :
    (type : Text) {kind : Kind} → lookup type protocol ≡ some kind → kind_of type ≡ kind
kind_of-lookup type h = All-lookup (λ (t, k). kind_of t ≡ k) type protocol kind_of-protocol h

pub done_inj {ℓ} : {A : Type ℓ} {a b : A} → done a ≡ done b → a ≡ b
done_inj h = cc

module _ (J : Json) {S : Type 0} (h : Handlers J S) where
  -- A message whose text is an object with a type of the protocol runs the handler meant for that
  -- type, and no other: the hashes of the labels do not get in each other's way.
  pub message_router-protocol :
      (json type : Text) (kind : Kind) (doc : J.Value) (s : S)
      → J.parse json ≡ some doc
      → J.is_object doc ≡ true
      → string_member J (text "type") doc ≡ some type
      → lookup type protocol ≡ some kind
      → message_router J h json s ≡ dispatch J h kind doc s
  unfolding message_router
  message_router-protocol json type kind doc s p o t k =
      rw (p, message_router) (rw (o, t, kind_of-lookup type k))

  route_type-keeps {ℓ} :
      (P : S → Type ℓ) (doc : J.Value) (type : Option Text) (s : S) {t : S}
      → ((kind : Kind) → dispatch J h kind doc s ≡ done t → P t)
      → P s
      → route_type J h doc type s ≡ done t
      → P t
  unfolding route_type
  route_type-keeps P doc none s each p e = subst P (done_inj e) p
  route_type-keeps P doc (some type) s each p e = each (kind_of type) e

  route_doc-keeps {ℓ} :
      (P : S → Type ℓ) (doc : Option J.Value) (s : S) {t : S}
      → ((kind : Kind) (doc : J.Value) → dispatch J h kind doc s ≡ done t → P t)
      → P s
      → route_doc J h doc s ≡ done t
      → P t
  unfolding route_doc
  route_doc-keeps P none s each p e = subst P (done_inj e) p
  route_doc-keeps P (some doc) s each p e = elim (Bool-cases (J.is_object doc)) [
    | inl o ↦ route_type-keeps P doc _ s (λ kind. each kind doc) p (rw (o, route_doc) at e)
    | inr o ↦ absurd (cc)
  ]

  -- What every handler keeps, the router keeps.
  pub message_router-keeps {ℓ} :
      (P : S → Type ℓ) (json : Text) (s : S) {t : S}
      → ((kind : Kind) (doc : J.Value) → dispatch J h kind doc s ≡ done t → P t)
      → P s
      → message_router J h json s ≡ done t
      → P t
  unfolding message_router
  message_router-keeps P json s each p e = route_doc-keeps P (J.parse json) s each p e

  -- The dispatch looks at the hash alone: this type is not of the protocol, and runs `on_join`.
  collision :
      (json : Text) (doc : J.Value) (s : S)
      → J.parse json ≡ some doc
      → J.is_object doc ≡ true
      → string_member J (text "type") doc ≡ some (text "bupzirv")
      → (lookup (text "bupzirv") protocol ≡ none) × (message_router J h json s ≡ h.on_join doc s)
  unfolding message_router kind_of dispatch lookup text_cmp
  collision json doc s p o t = (refl, rw (p, message_router) (rw (o, t)))
