-- ===== src/Client/Channel/Reading.antt =====
-- The chunks that a file is read in.
use cloud_node.Base.{
  ltb, Bool-cases, length, take, drop, All, ◌==◌, ==_iff, nat_ord, Text, text_ord, pair_ord, ℕ,
  zero, suc, ◌+◌, ◌-◌, ◌≤◌, ◌<◌, ◌≡◌, refl, sym, ap, ◌∙◌, inl, inr, none, some, List, [], ◌∷◌, ◌++◌,
  append-nil, arith,
}
use cloud_node.Client.Channel.{read_chunks}
use cloud_node.Client.Incoming.Transfer.{concat, length-zero}

pub take-append-drop : (n : ℕ) (t : Text) → take n t ++ drop n t ≡ t
take-append-drop zero t = refl
take-append-drop (suc n) [] = refl
take-append-drop (suc n) (b ∷ t) = ap (λ (r : Text). b ∷ r) (take-append-drop n t)

length-take : (n : ℕ) (t : Text) → n ≤ length t → length (take n t) ≡ n
length-take zero t h = refl
length-take (suc n) [] h = absurd (omega arith)
length-take (suc n) (b ∷ t) h = omega (arith, length-take n t)

length-drop : (n : ℕ) (t : Text) → length (drop n t) ≡ length t - n
length-drop zero t = omega arith
length-drop (suc n) [] = omega arith
length-drop (suc n) (b ∷ t) = omega (arith, length-drop n t)

-- Each chunk has a byte at least and the size at most.
abbrev pub Fits : ℕ → List Text → Type 0
Fits size = All (λ chunk. (0 < length chunk) × (length chunk ≤ size))

read_chunks-fuel :
    (fuel size : ℕ) (file : Text)
    → 0 < size
    → length file < fuel
    → (chunks : List Text) × (read_chunks fuel size file ≡ some chunks)
      × (concat chunks ≡ file)
      × Fits size chunks
unfolding read_chunks
read_chunks-fuel zero size file p h = absurd (omega arith)
read_chunks-fuel (suc fuel) size file p h = elim (Bool-cases (ltb (length file) size)) [
  | inl small ↦ elim (Bool-cases (length file == 0)) [
    | inl e ↦
        let empty : length file ≡ 0 = (==_iff (length file) 0).0 e in
        ([], rw (small, e) refl, sym (length-zero file empty), tt)
    | inr e ↦ (file ∷ [], rw (small, e) refl, append-nil file, ((ground arith, ground arith), tt))
  ]
  | inr large ↦
      let enough : size ≤ length file = ground arith in
      let (chunks, e, whole, fit) =
        read_chunks-fuel fuel size (drop size file) p (omega (arith, length-drop size file)) in
      (
        take size file ∷ chunks,
        rw (large, e) refl,
        ap (λ (r : Text). take size file ++ r) whole ∙ take-append-drop size file,
        (
          (
            omega (arith, length-take size file enough),
            omega (arith, length-take size file enough),
          ),
          fit,
        ),
      )
]

-- With a size of at least one byte the loop ends, after at most one round more than the file has
-- bytes. The chunks make up the file, and none is empty or longer than the size.
pub read_chunks-ends :
    (size : ℕ) (file : Text)
    → 0 < size
    → (chunks : List Text) × (read_chunks (length file + 1) size file ≡ some chunks)
      × (concat chunks ≡ file)
      × Fits size chunks
read_chunks-ends size file p = read_chunks-fuel (length file + 1) size file p (omega arith)

-- With a size of 0 it does not end, however long it runs.
pub read_chunks-endless : (fuel : ℕ) (file : Text) → read_chunks fuel 0 file ≡ none
unfolding read_chunks
read_chunks-endless zero file = refl
read_chunks-endless (suc fuel) file = ground (arith, read_chunks-endless fuel file)
