-- ===== src/PropertyBag/Laws.antt =====
-- What is got of what was set.
use cloud_node.Base.{
  ap, ◌∙◌, Bool, if◌then◌else◌, Bool-cases, ◌==◌, Text, text_ord, some, ◌≡◌, refl, inl, inr, true,
  false,
}
use cloud_node.Base.Dict.{Dict, lookup, lookup-insert}
use cloud_node.PropertyBag.{Value, Got, set, got_of, get, contains}

-- After a value is set, its name gets this value, if it has the type that is asked for, and every other
-- name gets what it got before.
pub get-set {ℓ} :
    {A : Type ℓ} (as_type : Value → Got A) (j k : Text) (value : Value) (bag : Dict Text Value)
    → get as_type j (set k value bag) ≡ (if j == k then as_type value else get as_type j bag)
unfolding get set
get-set as_type j k value bag = ap (got_of as_type) (lookup-insert j k value bag) ∙ by_test (j == k)
  where
    by_test :
        (b : Bool)
        → got_of as_type (if b then some value else lookup j bag)
          ≡ (if b then as_type value else got_of as_type (lookup j bag))
    by_test true = refl
    by_test false = refl

pub contains-set :
    (j k : Text) (value : Value) (bag : Dict Text Value)
    → contains j (set k value bag) ≡ (if j == k then true else contains j bag)
unfolding contains set
contains-set j k value bag = elim (Bool-cases (j == k)) [
  | inl e ↦ rw (lookup-insert j k value bag, e) refl
  | inr e ↦ rw (lookup-insert j k value bag, e) refl
]
