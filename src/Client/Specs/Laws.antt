-- ===== src/Client/Specs/Laws.antt =====
-- Reading back what was written, and what every entry read is like.
use cloud_node.Base.{
  if◌then◌else◌, Bool-cases, Option-cases, All, ◌==◌, ==_iff, ==_refl, nat_ord, Text, text_ord,
  pair_ord, ℕ, ◌≡◌, refl, sym, ap, ◌∙◌, inl, inr, Bool, true, false, not, ◌&&◌, some, List, [], ◌∷◌,
  ◌++◌, map, append-nil, append_assoc, arith,
}
use cloud_node.Client.Specs.{
  FileSpec, split, cut, is_empty, parse_entry, parse_entries, parse_file_specs,
}

abbrev pub lacks : ℕ → Text → Bool
lacks d [] = true
lacks d (c ∷ cs) = not (c == d) && lacks d cs

lacks-append : (d : ℕ) (a b : Text) → lacks d (a ++ b) ≡ (lacks d a && lacks d b)
lacks-append d [] b = refl
lacks-append d (c ∷ a) b = ground (arith, lacks-append d a b)

split_one : (d : ℕ) (e : Text) → lacks d e ≡ true → split d e ≡ e ∷ []
unfolding split
split_one d [] h = refl
split_one d (c ∷ e) h = ground (arith, split_one d e)

split-append :
    (d : ℕ) (e rest : Text) → lacks d e ≡ true → split d (e ++ (d ∷ rest)) ≡ e ∷ split d rest
unfolding split
split-append d [] rest h = ground (arith, ==_refl d)
split-append d (c ∷ e) rest h = ground (arith, split-append d e rest)

cut-append : (d : ℕ) (a b : Text) → lacks d a ≡ true → cut d (a ++ (d ∷ b)) ≡ some (a, b)
unfolding cut
cut-append d [] b h = ground (arith, ==_refl d)
cut-append d (c ∷ a) b h = ground (arith, cut-append d a b)

cut_sound : (d : ℕ) (t a b : Text) → cut d t ≡ some (a, b) → (t ≡ a ++ (d ∷ b)) × (lacks d a ≡ true)
unfolding cut
cut_sound d [] a b h = absurd (cc)
cut_sound d (c ∷ t) a b h = elim (Bool-cases (c == d)) [
  | inl e ↦ ground (arith, e, h, ==_iff c d)
  | inr e ↦ elim (Option-cases (cut d t)) [
    | inl n ↦ absurd (ground (arith, e, n, h))
    | inr ((a', b'), n) ↦ ground (arith, e, n, h, cut_sound d t a' b' n)
  ]
]

abbrev pub print_entry : FileSpec → Text
print_entry s = s.peer ++ (b':' ∷ (s.room ++ (b':' ∷ s.path)))

abbrev pub print_specs : List FileSpec → Text
print_specs [] = []
print_specs (s ∷ []) = print_entry s
print_specs (s ∷ t ∷ r) = print_entry s ++ (b',' ∷ print_specs (t ∷ r))

-- Nothing is empty, and only the path may hold a colon.
pub record IsWellFormed (s : FileSpec) : Type 0 where
  pub peer_named : is_empty s.peer ≡ false
  pub room_named : is_empty s.room ≡ false
  pub path_named : is_empty s.path ≡ false
  pub peer_plain : lacks b':' s.peer ≡ true
  pub room_plain : lacks b':' s.room ≡ true

abbrev pub HasNoComma : FileSpec → Type 0
HasNoComma s = (lacks b',' s.peer ≡ true) × (lacks b',' s.room ≡ true) × (lacks b',' s.path ≡ true)

parse_entry-print_entry : (s : FileSpec) → IsWellFormed s → parse_entry (print_entry s) ≡ some s
unfolding parse_entry
parse_entry-print_entry s w =
    rw (cut-append b':' s.peer (s.room ++ (b':' ∷ s.path)) w.peer_plain, parse_entry)
      (rw (cut-append b':' s.room s.path w.room_plain) (ground arith))

entry_of_cuts :
    (e : Text) (s : FileSpec) (peer rest room path : Text)
    → cut b':' e ≡ some (peer, rest)
    → cut b':' rest ≡ some (room, path)
    → (e ≡ peer ++ (b':' ∷ rest)) × (lacks b':' peer ≡ true)
    → (rest ≡ room ++ (b':' ∷ path)) × (lacks b':' room ≡ true)
    → parse_entry e ≡ some s
    → (e ≡ print_entry s) × IsWellFormed s
unfolding parse_entry
entry_of_cuts e s peer rest room path n m p q h =
    ground (arith, n, m, p, q, rw (n, parse_entry) at h)

print_entry_nonempty : (s : FileSpec) → IsWellFormed s → is_empty (print_entry s) ≡ false
print_entry_nonempty s w = ground arith

print_entry_plain : (s : FileSpec) → HasNoComma s → lacks b',' (print_entry s) ≡ true
print_entry_plain s (p, r, q) = ground (
  arith,
  lacks-append b',' s.peer (b':' ∷ (s.room ++ (b':' ∷ s.path))),
  lacks-append b',' s.room (b':' ∷ s.path),
)

parse_entries_empty : parse_entries (split b',' []) [] ≡ (true, [])
unfolding parse_entries split
parse_entries_empty = refl

parse_entry_sound :
    (e : Text) (s : FileSpec) → parse_entry e ≡ some s → (e ≡ print_entry s) × IsWellFormed s
unfolding parse_entry
parse_entry_sound e s h = elim (Option-cases (cut b':' e)) [
  | inl n ↦ absurd (ground (arith, n, h))
  | inr ((peer, rest), n) ↦ elim (Option-cases (cut b':' rest)) [
    | inl m ↦ absurd (ground (arith, n, m, h))
    | inr ((room, path), m) ↦
        entry_of_cuts e s peer rest room path n m (cut_sound b':' e peer rest n)
          (cut_sound b':' rest room path m) h
  ]
]

abbrev pub nonempties : List Text → List Text
nonempties [] = []
nonempties (e ∷ es) = let rest = nonempties es in if is_empty e then rest else e ∷ rest

map-snoc :
    (s : FileSpec) (es : List Text) (specs : List FileSpec)
    → map print_entry (specs ++ s ∷ []) ++ es ≡ map print_entry specs ++ (print_entry s ∷ es)
map-snoc s es [] = refl
map-snoc s es (t ∷ specs) = ap (λ (r : List Text). print_entry t ∷ r) (map-snoc s es specs)

All-snoc :
    (s : FileSpec) (specs : List FileSpec)
    → All IsWellFormed specs
    → IsWellFormed s
    → All IsWellFormed (specs ++ s ∷ [])
All-snoc s [] a w = (w, tt)
All-snoc s (t ∷ specs) a w = (a.0, All-snoc s specs a.1 w)

parse_entries_sound :
    (es : List Text) (specs : List FileSpec)
    → All IsWellFormed specs
    → (parse_entries es specs).0 ≡ true
    → (map print_entry (parse_entries es specs).1 ≡ map print_entry specs ++ nonempties es)
      × All IsWellFormed (parse_entries es specs).1
unfolding parse_entries
parse_entries_sound [] specs a h = (sym (append-nil _), a)
parse_entries_sound (e ∷ es) specs a h = elim (Bool-cases (is_empty e)) [
  | inl n ↦ rw (n, parse_entries) (parse_entries_sound es specs a (rw (n, parse_entries) at h))
  | inr n ↦ elim (Option-cases (parse_entry e)) [
    | inl m ↦ absurd (ground (arith, n, m, h))
    | inr (s, m) ↦
        let (p, w) = parse_entry_sound e s m in
        let (q, b) =
          parse_entries_sound es (specs ++ s ∷ []) (All-snoc s specs a w)
            (rw (n, m, parse_entries) at h) in
        rw (n, m, parse_entries) (q ∙ map-snoc s (nonempties es) specs ∙ rw (← p), b)
  ]
]

-- If `--file` is accepted, the files to send are its non-empty entries, in their order, and each has
-- a peer, a room and a path, with no colon in the first two.
pub parse_file_specs_sound :
    (t : Text)
    → (parse_file_specs t).0 ≡ true
    → (map print_entry (parse_file_specs t).1 ≡ nonempties (split b',' t))
      × All IsWellFormed (parse_file_specs t).1
unfolding parse_file_specs
parse_file_specs_sound t h = parse_entries_sound (split b',' t) [] tt h

parse_entries-print :
    (specs done : List FileSpec)
    → All IsWellFormed specs
    → parse_entries (map print_entry specs) done ≡ (true, done ++ specs)
unfolding parse_entries
parse_entries-print [] done a = rw append-nil
parse_entries-print (s ∷ specs) done a =
    rw (print_entry_nonempty s a.0, parse_entry-print_entry s a.0, parse_entries)
      (parse_entries-print specs (done ++ s ∷ []) a.1
        ∙ ap (λ (r : List FileSpec). (true, r)) (append_assoc done (s ∷ []) specs))

split-print_specs :
    (s : FileSpec) (specs : List FileSpec)
    → All HasNoComma (s ∷ specs)
    → split b',' (print_specs (s ∷ specs)) ≡ map print_entry (s ∷ specs)
split-print_specs s [] a = split_one b',' (print_entry s) (print_entry_plain s a.0)
split-print_specs s (t ∷ specs) a =
    split-append b',' (print_entry s) (print_specs (t ∷ specs)) (print_entry_plain s a.0)
    ∙ ap (λ (r : List Text). print_entry s ∷ r) (split-print_specs t specs a.1)

-- A list of files whose peers and rooms have no colon, and which have no comma and nothing empty,
-- can be written as `--file`, and is read back as it was. Paths may have colons.
pub parse_file_specs-print_specs :
    (specs : List FileSpec)
    → All IsWellFormed specs
    → All HasNoComma specs
    → parse_file_specs (print_specs specs) ≡ (true, specs)
unfolding parse_file_specs
parse_file_specs-print_specs [] w c = parse_entries_empty
parse_file_specs-print_specs (s ∷ specs) w c =
    rw (split-print_specs s specs c, parse_file_specs) (parse_entries-print (s ∷ specs) [] w)
