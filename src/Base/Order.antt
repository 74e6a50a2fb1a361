-- ===== src/Base/Order.antt =====
-- Ordered keys, as `std::map` and `std::set` want them, and `std::string` as its bytes.
use Prim.Native.Nat.{ℕ, compare, Ordering}
use Prim.Native.Char.{code}
use Prim.Native.String.{String}
use mathlib.Core.Path.{◌≡◌, refl}
use mathlib.Core.Logic.{◌↔◌}
use mathlib.Core.Bool.{Bool, true, false}
use mathlib.Core.List.{List, [], ◌∷◌}
use native.Mathlib.Omega.{arith}

pub record Ord {ℓ} (K : Type ℓ) : Type ℓ where
  pub cmp : K → K → Ordering
  pub cmp-eq_iff : (a b : K) → (cmp a b ≡ Ordering.eq) ↔ (a ≡ b)
  pub cmp-gt : (a b : K) → cmp a b ≡ Ordering.gt → cmp b a ≡ Ordering.lt
  pub cmp-lt_trans :
      (a b c : K) → cmp a b ≡ Ordering.lt → cmp b c ≡ Ordering.lt → cmp a c ≡ Ordering.lt

infix 50 ◌==◌
abbrev pub ◌==◌ {ℓ} : {K : Type ℓ} ⦃e : Ord K⦄ → K → K → Bool
◌==◌ ⦃e⦄ a b = elim (e.cmp a b) [ Ordering.eq ↦ true | _ ↦ false ]

pub ==_iff {ℓ} : {K : Type ℓ} ⦃e : Ord K⦄ (a b : K) → ((a == b) ≡ true) ↔ (a ≡ b)
==_iff ⦃e⦄ a b = ground (arith, e.cmp-eq_iff a b)

pub ==_refl {ℓ} : {K : Type ℓ} ⦃e : Ord K⦄ (a : K) → (a == a) ≡ true
==_refl ⦃e⦄ a = (==_iff a a).1 refl

pub nat_cmp-eq_iff : (a b : ℕ) → (compare a b ≡ Ordering.eq) ↔ (a ≡ b)
nat_cmp-eq_iff a b = ground arith

pub nat_cmp-gt : (a b : ℕ) → compare a b ≡ Ordering.gt → compare b a ≡ Ordering.lt
nat_cmp-gt a b h = ground arith

pub nat_cmp-lt_trans :
    (a b c : ℕ) → compare a b ≡ Ordering.lt → compare b c ≡ Ordering.lt → compare a c ≡ Ordering.lt
nat_cmp-lt_trans a b c h k = ground arith

instance abbrev pub nat_ord : Ord ℕ
nat_ord = record {
  cmp = compare;
  cmp-eq_iff = nat_cmp-eq_iff;
  cmp-gt = nat_cmp-gt;
  cmp-lt_trans = nat_cmp-lt_trans;
}

-- A `std::string`: its bytes.
abbrev pub Text : Type 0
Text = List ℕ

-- A literal of the source.
abbrev pub text : String → Text
text String.[] = []
text (String.◌∷◌ c s) = code c ∷ text s

abbrev then_cmp : Ordering → Ordering → Ordering
then_cmp Ordering.lt o = Ordering.lt
then_cmp Ordering.eq o = o
then_cmp Ordering.gt o = Ordering.gt

-- The lexicographic order of `std::string`.
unfoldable pub text_cmp : Text → Text → Ordering
text_cmp [] [] = Ordering.eq
text_cmp [] (b ∷ bs) = Ordering.lt
text_cmp (a ∷ r) [] = Ordering.gt
text_cmp (a ∷ r) (b ∷ bs) = then_cmp (compare a b) (text_cmp r bs)

pub text_cmp-eq_iff : (a b : Text) → (text_cmp a b ≡ Ordering.eq) ↔ (a ≡ b)
unfolding text_cmp
text_cmp-eq_iff [] [] = ground arith
text_cmp-eq_iff [] (b ∷ bs) = ground arith
text_cmp-eq_iff (a ∷ r) [] = ground arith
text_cmp-eq_iff (a ∷ r) (b ∷ bs) = ground (arith, text_cmp-eq_iff r bs)

pub text_cmp-gt : (a b : Text) → text_cmp a b ≡ Ordering.gt → text_cmp b a ≡ Ordering.lt
unfolding text_cmp
text_cmp-gt [] [] h = cc
text_cmp-gt [] (b ∷ bs) h = cc
text_cmp-gt (a ∷ r) [] h = refl
text_cmp-gt (a ∷ r) (b ∷ bs) h = ground (arith, text_cmp-gt r bs)

pub text_cmp-lt_trans :
    (a b c : Text)
    → text_cmp a b ≡ Ordering.lt
    → text_cmp b c ≡ Ordering.lt
    → text_cmp a c ≡ Ordering.lt
unfolding text_cmp
text_cmp-lt_trans [] [] c h k = cc
text_cmp-lt_trans [] (b ∷ bs) [] h k = cc
text_cmp-lt_trans [] (b ∷ bs) (c ∷ cs) h k = refl
text_cmp-lt_trans (a ∷ r) [] c h k = cc
text_cmp-lt_trans (a ∷ r) (b ∷ bs) [] h k = cc
text_cmp-lt_trans (a ∷ r) (b ∷ bs) (c ∷ cs) h k = ground (arith, text_cmp-lt_trans r bs cs)

instance abbrev pub text_ord : Ord Text
text_ord = record {
  cmp = text_cmp;
  cmp-eq_iff = text_cmp-eq_iff;
  cmp-gt = text_cmp-gt;
  cmp-lt_trans = text_cmp-lt_trans;
}

-- The order of `std::pair`.
module _ {ℓ κ} {A : Type ℓ} {B : Type κ} ⦃a : Ord A⦄ ⦃b : Ord B⦄ where
  abbrev pair_cmp : A × B → A × B → Ordering
  pair_cmp (x, y) (z, w) = then_cmp (a.cmp x z) (b.cmp y w)

  pub pair_cmp-eq_iff : (p q : A × B) → (pair_cmp p q ≡ Ordering.eq) ↔ (p ≡ q)
  pair_cmp-eq_iff (x, y) (z, w) = ground (arith, a.cmp-eq_iff x z, b.cmp-eq_iff y w)

  pub pair_cmp-gt : (p q : A × B) → pair_cmp p q ≡ Ordering.gt → pair_cmp q p ≡ Ordering.lt
  pair_cmp-gt (x, y) (z, w) h =
      ground (arith, a.cmp-eq_iff x z, a.cmp-eq_iff z x, a.cmp-gt x z, b.cmp-gt y w)

  pub pair_cmp-lt_trans :
      (p q r : A × B)
      → pair_cmp p q ≡ Ordering.lt
      → pair_cmp q r ≡ Ordering.lt
      → pair_cmp p r ≡ Ordering.lt
  pair_cmp-lt_trans (x, y) (z, w) (u, v) h k = ground (
    arith,
    a.cmp-eq_iff x z,
    a.cmp-eq_iff z u,
    a.cmp-eq_iff x u,
    a.cmp-lt_trans x z u,
    b.cmp-lt_trans y w v,
  )

  instance abbrev pub pair_ord : Ord (A × B)
  pair_ord = record {
    cmp = pair_cmp;
    cmp-eq_iff = pair_cmp-eq_iff;
    cmp-gt = pair_cmp-gt;
    cmp-lt_trans = pair_cmp-lt_trans;
  }
