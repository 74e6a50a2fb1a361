-- ===== src/Base/Set.antt =====
-- `std::set`: members in order.
use Prim.Native.Nat.{Ordering}
use mathlib.Core.Path.{◌≡◌, refl}
use mathlib.Core.Bool.{Bool, false, ◌||◌}
use mathlib.Core.List.{List, [], ◌∷◌}
use native.Mathlib.Omega.{arith}
use cloud_node.Base.Tests.{if◌then◌else◌}
use cloud_node.Base.Order.{Ord, ◌==◌}

module _ {ℓ} {K : Type ℓ} ⦃e : Ord K⦄ where
  unfoldable pub contains : K → List K → Bool
  contains k [] = false
  contains k (j ∷ s) = k == j || contains k s

  unfoldable pub insert : K → List K → List K
  insert k [] = k ∷ []
  insert k (j ∷ s) = elim (e.cmp k j) [
    | Ordering.lt ↦ k ∷ j ∷ s
    | Ordering.eq ↦ k ∷ s
    | Ordering.gt ↦ j ∷ insert k s
  ]

  unfoldable pub erase : K → List K → List K
  erase k [] = []
  erase k (j ∷ s) = let rest = erase k s in if k == j then rest else j ∷ rest

  abbrev pub Above : K → List K → Type 0
  Above k [] = Unit {0}
  Above k (j ∷ s) = (e.cmp k j ≡ Ordering.lt) × Above j s

  abbrev pub IsSorted : List K → Type 0
  IsSorted [] = Unit {0}
  IsSorted (k ∷ s) = Above k s

  pub contains-insert : (j k : K) (s : List K) → contains j (insert k s) ≡ (j == k || contains j s)
  unfolding insert contains
  contains-insert j k [] = refl
  contains-insert j k (i ∷ s) =
      ground (arith, e.cmp-eq_iff j k, e.cmp-eq_iff k i, e.cmp-eq_iff j i, contains-insert j k s)

  pub contains-erase :
      (j k : K) (s : List K) → contains j (erase k s) ≡ (if j == k then false else contains j s)
  unfolding erase contains
  contains-erase j k [] = ground arith
  contains-erase j k (i ∷ s) =
      ground (arith, e.cmp-eq_iff j k, e.cmp-eq_iff k i, e.cmp-eq_iff j i, contains-erase j k s)

  Above-insert : (i k : K) (s : List K) → e.cmp i k ≡ Ordering.lt → Above i s → Above i (insert k s)
  unfolding insert
  Above-insert i k [] h a = (h, tt)
  Above-insert i k (j ∷ s) h a = ground (arith, e.cmp-eq_iff k j, e.cmp-gt k j, Above-insert j k s)

  pub insert-IsSorted : (k : K) (s : List K) → IsSorted s → IsSorted (insert k s)
  unfolding insert
  insert-IsSorted k [] h = tt
  insert-IsSorted k (j ∷ s) h = ground (arith, e.cmp-eq_iff k j, e.cmp-gt k j, Above-insert j k s)

  Above-trans : (i k : K) (s : List K) → e.cmp i k ≡ Ordering.lt → Above k s → Above i s
  Above-trans i k [] h a = tt
  Above-trans i k (j ∷ s) h a = (e.cmp-lt_trans i k j h a.0, a.1)

  Above-erase : (i k : K) (s : List K) → Above i s → Above i (erase k s)
  unfolding erase
  Above-erase i k [] a = tt
  Above-erase i k (j ∷ s) a = ground (arith, Above-erase j k s a.1, Above-trans i j (erase k s))

  pub erase-IsSorted : (k : K) (s : List K) → IsSorted s → IsSorted (erase k s)
  unfolding erase
  erase-IsSorted k [] h = tt
  erase-IsSorted k (j ∷ []) h = ground arith
  erase-IsSorted k (j ∷ i ∷ s) h = ground (arith, Above-erase j k (i ∷ s) h, Above-erase i k s h.1)

  pub erase_absent : (k : K) (s : List K) → contains k s ≡ false → erase k s ≡ s
  unfolding contains erase
  erase_absent k [] h = refl
  erase_absent k (j ∷ s) h = ground (arith, erase_absent k s)
