-- ===== src/Base/Dict.antt =====
-- `std::map`: entries in the order of the keys.
use Prim.Native.Nat.{Ordering}
use mathlib.Core.Path.{◌≡◌, refl}
use mathlib.Core.Option.{Option, none, some}
use mathlib.Core.List.{List, [], ◌∷◌}
use native.Mathlib.Omega.{arith}
use cloud_node.Base.Tests.{if◌then◌else◌}
use cloud_node.Base.Order.{Ord, ◌==◌}

abbrev pub Dict {ℓ κ} : Type ℓ → Type κ → Type (ℓ ⊔ κ)
Dict K V = List (K × V)

module _ {ℓ κ} {K : Type ℓ} {V : Type κ} ⦃e : Ord K⦄ where
  -- `m.find(k)`
  unfoldable pub lookup : K → Dict K V → Option V
  lookup k [] = none
  lookup k ((j, v) ∷ m) = if k == j then some v else lookup k m

  -- `m[k] = v`
  unfoldable pub insert : K → V → Dict K V → Dict K V
  insert k v [] = (k, v) ∷ []
  insert k v ((j, w) ∷ m) = elim (e.cmp k j) [
    | Ordering.lt ↦ (k, v) ∷ (j, w) ∷ m
    | Ordering.eq ↦ (k, v) ∷ m
    | Ordering.gt ↦ (j, w) ∷ insert k v m
  ]

  -- `m.erase(k)`
  unfoldable pub erase : K → Dict K V → Dict K V
  erase k [] = []
  erase k ((j, v) ∷ m) = let rest = erase k m in if k == j then rest else (j, v) ∷ rest

  -- The keys rise, so no key stands twice.
  abbrev pub Above : K → Dict K V → Type 0
  Above k [] = Unit {0}
  Above k ((j, v) ∷ m) = (e.cmp k j ≡ Ordering.lt) × Above j m

  abbrev pub IsSorted : Dict K V → Type 0
  IsSorted [] = Unit {0}
  IsSorted ((k, v) ∷ m) = Above k m

  pub lookup-insert :
      (j k : K) (v : V) (m : Dict K V)
      → lookup j (insert k v m) ≡ (if j == k then some v else lookup j m)
  unfolding insert lookup
  lookup-insert j k v [] = refl
  lookup-insert j k v ((i, w) ∷ m) =
      ground (arith, e.cmp-eq_iff j k, e.cmp-eq_iff k i, e.cmp-eq_iff j i, lookup-insert j k v m)

  pub lookup-erase :
      (j k : K) (m : Dict K V) → lookup j (erase k m) ≡ (if j == k then none else lookup j m)
  unfolding erase lookup
  lookup-erase j k [] = ground arith
  lookup-erase j k ((i, w) ∷ m) =
      ground (arith, e.cmp-eq_iff j k, e.cmp-eq_iff k i, e.cmp-eq_iff j i, lookup-erase j k m)

  Above-insert :
      (i k : K) (v : V) (m : Dict K V)
      → e.cmp i k ≡ Ordering.lt
      → Above i m
      → Above i (insert k v m)
  unfolding insert
  Above-insert i k v [] h a = (h, tt)
  Above-insert i k v ((j, w) ∷ m) h a =
      ground (arith, e.cmp-eq_iff k j, e.cmp-gt k j, Above-insert j k v m)

  pub insert-IsSorted : (k : K) (v : V) (m : Dict K V) → IsSorted m → IsSorted (insert k v m)
  unfolding insert
  insert-IsSorted k v [] s = tt
  insert-IsSorted k v ((j, w) ∷ m) s =
      ground (arith, e.cmp-eq_iff k j, e.cmp-gt k j, Above-insert j k v m)

  Above-trans : (i k : K) (m : Dict K V) → e.cmp i k ≡ Ordering.lt → Above k m → Above i m
  Above-trans i k [] h a = tt
  Above-trans i k ((j, v) ∷ m) h a = (e.cmp-lt_trans i k j h a.0, a.1)

  Above-erase : (i k : K) (m : Dict K V) → Above i m → Above i (erase k m)
  unfolding erase
  Above-erase i k [] a = tt
  Above-erase i k ((j, v) ∷ m) a =
      ground (arith, Above-erase j k m a.1, Above-trans i j (erase k m))

  pub erase-IsSorted : (k : K) (m : Dict K V) → IsSorted m → IsSorted (erase k m)
  unfolding erase
  erase-IsSorted k [] s = tt
  erase-IsSorted k ((j, v) ∷ []) s = ground arith
  erase-IsSorted k ((j, v) ∷ (i, w) ∷ m) s =
      ground (arith, Above-erase j k ((i, w) ∷ m) s, Above-erase i k m s.1)
