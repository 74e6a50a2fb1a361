-- ===== src/RandomName/Plain.antt =====
-- The bytes of a random name.
use cloud_node.Base.{
  ltb, leb, Bool-cases, length, All, ◌==◌, nat_ord, Text, text, text_ord, pair_ord, ℕ, zero, suc,
  ◌+◌, ◌/◌, ◌%◌, ◌≤◌, ◌<◌, ◌≡◌, refl, inl, inr, Bool, true, ◌&&◌, ◌||◌, some, List, [], ◌∷◌, ◌++◌,
  arith,
}
use cloud_node.Base.Decimal.{decimal, decimal_from}
use cloud_node.RandomName.{get_elem?, animals, objects, verbs, nouns, Draws, generate}

-- A letter, a digit or `#`: no byte that JSON, a header or `--file` treats apart.
abbrev pub is_plain : ℕ → Bool
is_plain b =
    (leb b'A' b && leb b b'Z')
    || ((leb b'a' b && leb b b'z') || ((leb b'0' b && leb b b'9') || b == b'#'))

abbrev pub IsPlain : Text → Type 0
IsPlain = All (λ b. is_plain b ≡ true)

-- What the bounds of the distributions promise.
pub record InRange (d : Draws) : Type 0 where
  pub animal : d.animal < length animals
  pub object : d.object < length objects
  pub verb : d.verb < length verbs
  pub noun : d.noun < length nouns
  pub low : 100 ≤ d.number
  pub high : d.number ≤ 999

abbrev plain? : Text → Bool
plain? [] = true
plain? (b ∷ t) = is_plain b && plain? t

abbrev all_plain? : List Text → Bool
all_plain? [] = true
all_plain? (t ∷ ts) = plain? t && all_plain? ts

plain?-IsPlain : (t : Text) → plain? t ≡ true → IsPlain t
plain?-IsPlain [] h = tt
plain?-IsPlain (b ∷ t) h = (ground arith, plain?-IsPlain t (ground arith))

get-IsPlain :
    (ts : List Text) (i : ℕ)
    → all_plain? ts ≡ true
    → i < length ts
    → (t : Text) × (get_elem? ts i ≡ some t) × IsPlain t
get-IsPlain [] i h l = absurd (omega arith)
get-IsPlain (t ∷ ts) zero h l = (t, refl, plain?-IsPlain t (ground arith))
get-IsPlain (t ∷ ts) (suc i) h l = get-IsPlain ts i (ground arith) (omega arith)

append-IsPlain : (s t : Text) → IsPlain s → IsPlain t → IsPlain (s ++ t)
append-IsPlain [] t h k = k
append-IsPlain (b ∷ s) t h k = (h.0, append-IsPlain s t h.1 k)

digit-is_plain : (n : ℕ) → n < 10 → is_plain (b'0' + n) ≡ true
digit-is_plain n h = ground arith

decimal_from-IsPlain :
    (fuel n : ℕ) (rest : Text) → IsPlain rest → IsPlain (decimal_from fuel n rest)
unfolding decimal_from
decimal_from-IsPlain zero n rest h = h
decimal_from-IsPlain (suc fuel) n rest h = elim (Bool-cases (ltb n 10)) [
  | inl e ↦ rw e (digit-is_plain n (ground arith), h)
  | inr e ↦ rw e (decimal_from-IsPlain fuel (n / 10) _ (digit-is_plain (n % 10) (omega arith), h))
]

decimal-IsPlain : (n : ℕ) → IsPlain (decimal n)
unfolding decimal
decimal-IsPlain n = decimal_from-IsPlain (suc n) n [] tt

-- With draws in the ranges of the distributions no word is past the end of its list, and every byte of the
-- name is a letter, a digit or `#`.
pub generate-IsPlain :
    (d : Draws) → InRange d → (name : Text) × (generate d ≡ some name) × IsPlain name
unfolding generate
generate-IsPlain d r =
    let (a, ea, ha) = get-IsPlain animals d.animal refl r.animal in
    let (o, eo, ho) = get-IsPlain objects d.object refl r.object in
    let (v, ev, hv) = get-IsPlain verbs d.verb refl r.verb in
    let (n, en, hn) = get-IsPlain nouns d.noun refl r.noun in
    (
      a ++ (o ++ (v ++ (n ++ (text "#" ++ decimal d.number)))),
      rw (ea, eo, ev, en) refl,
      append-IsPlain a _ ha (
          append-IsPlain o _ ho
            (append-IsPlain v _ hv (append-IsPlain n _ hn (refl, decimal-IsPlain d.number)))),
    )
