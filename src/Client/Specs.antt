-- ===== src/Client/Specs.antt =====
-- The entries of `--file`: `ParseFileSpecs`, and the plain list of paths that `StartClient` reads
-- where `--peer` is given.
pub mod Laws
use cloud_node.Base.{
  ◌>>=◌, ◌>>◌, nat_ord, if◌then◌else◌, guard, ◌==◌, Text, ℕ, Bool, true, false, not, ◌||◌, Option,
  none, some, List, [], ◌∷◌, ◌++◌,
}

pub record FileSpec : Type 0 where
  pub peer : Text
  pub room : Text
  pub path : Text

abbrev pub cons_head : ℕ → List Text → List Text
cons_head c [] = (c ∷ []) ∷ []
cons_head c (e ∷ es) = (c ∷ e) ∷ es

-- The loop over `text.find(d, start)`: what stands between the delimiters, empty parts included.
unfoldable pub split : ℕ → Text → List Text
split d [] = [] ∷ []
split d (c ∷ cs) = let rest = split d cs in if c == d then [] ∷ rest else cons_head c rest

abbrev cons_first : ℕ → Option (Text × Text) → Option (Text × Text)
cons_first c none = none
cons_first c (some (a, b)) = some (c ∷ a, b)

-- `entry.find(d)`, with what stands before and behind the first `d`.
unfoldable pub cut : ℕ → Text → Option (Text × Text)
cut d [] = none
cut d (c ∷ cs) = let rest = cut d cs in if c == d then some ([], cs) else cons_first c rest

abbrev pub is_empty : Text → Bool
is_empty [] = true
is_empty (c ∷ cs) = false

-- One entry, `peer:room:path`.
unfoldable pub parse_entry : Text → Option FileSpec
unfolding cut
parse_entry entry = do
  (peer, rest) ← cut b':' entry
  (room, path) ← cut b':' rest
  guard (not (is_empty peer || is_empty room || is_empty path))
  some (record { peer = peer; room = room; path = path })

-- The loop's body for each entry, with the entries parsed so far; a bad entry ends it.
unfoldable pub parse_entries : List Text → List FileSpec → Bool × List FileSpec
parse_entries [] specs = (true, specs)
parse_entries (entry ∷ rest) specs = elim (is_empty entry) [
  | true ↦ parse_entries rest specs
  | false ↦ elim (parse_entry entry) [
    | none ↦ (false, specs)
    | some spec ↦ parse_entries rest (specs ++ spec ∷ [])
  ]
]

-- Whether all entries are well formed, and the vector of those that were read.
unfoldable pub parse_file_specs : Text → Bool × List FileSpec
unfolding parse_entries split parse_entry
parse_file_specs t = parse_entries (split b',' t) []

plain : Text → Text → List Text → List FileSpec
plain peer room [] = []
plain peer room (path ∷ paths) =
    let rest = plain peer room paths in
    if is_empty path then rest else record { peer = peer; room = room; path = path } ∷ rest

-- With `--peer`: paths that all go to that peer in `--room`.
unfoldable pub plain_file_specs : Text → Text → Text → List FileSpec
unfolding plain split
plain_file_specs peer room paths = plain peer room (split b',' paths)
