-- ===== src/Client/FilePath.antt =====
-- `std::filesystem::path` as `OnFileOffer` uses it: `relative_path`, `lexically_normal` and `/`, and
-- the check that confines a sender's file name.
pub mod Confinement
use cloud_node.Base.{
  text_ord, nat_ord, if◌then◌else◌, ◌==◌, Text, text, Bool, true, false, not, ◌&&◌, ◌||◌, Option,
  none, some, List, [], ◌∷◌, ◌++◌,
}
use mathlib.Core.List.{reverse}
use cloud_node.Client.Specs.{split, is_empty}

abbrev pub dot : Text
dot = text "."

abbrev pub dot_dot : Text
dot_dot = text ".."

-- The file names of a path, without the root directory and the empty parts of doubled separators.
unfoldable pub filenames : List Text → List Text
filenames [] = []
filenames (part ∷ parts) = let rest = filenames parts in if is_empty part then rest else part ∷ rest

abbrev pub push : Text → List Text → List Text
push name [] = name ∷ []
push name (top ∷ below) =
    if name == dot_dot && not (top == dot_dot) then below else name ∷ top ∷ below

-- The names that are left when every `.` is gone, and every name before a `..` with it, last first.
unfoldable pub resolve : List Text → List Text → List Text
resolve stack [] = stack
resolve stack (name ∷ names) = resolve (if name == dot then stack else push name stack) names

-- A path of no names at all that is not empty is `.`.
abbrev pub or_dot : List Text → List Text
or_dot [] = dot ∷ []
or_dot (name ∷ names) = name ∷ names

-- A path that ends in a separator, in `.`, or in a `..` whose name went with it keeps a separator at its
-- end, but none after a `..`. Its last name is then empty.
abbrev pub leaves_open : List Text → Bool
leaves_open [] = false
leaves_open (part ∷ []) = is_empty part || (part == dot || part == dot_dot)
leaves_open (part ∷ next ∷ parts) = leaves_open (next ∷ parts)

abbrev pub ended : Bool → List Text → List Text
ended is_open [] = []
ended is_open (top ∷ below) =
    if is_open && not (top == dot_dot) then [] ∷ top ∷ below else top ∷ below

-- `path(t).relative_path().lexically_normal()`, as its names
unfoldable pub normal : Text → List Text
normal t =
    let parts = split b'/' t in
    elim (filenames parts) [
      | [] ↦ []
      | name ∷ names ↦ or_dot (reverse (ended (leaves_open parts) (resolve [] (name ∷ names))))
    ]

abbrev pub first_is : Text → List Text → Bool
first_is k [] = false
first_is k (name ∷ names) = name == k

abbrev pub no_names : List Text → Bool
no_names [] = true
no_names (name ∷ names) = false

-- `name.empty() || *name.begin() == ".."` refuses the offer.
unfoldable pub offered_name : Text → Option (List Text)
offered_name t =
    let names = normal t in if no_names names || first_is dot_dot names then none else some names

abbrev ends_in_separator : Text → Bool
ends_in_separator [] = false
ends_in_separator (c ∷ []) = c == b'/'
ends_in_separator (c ∷ d ∷ t) = ends_in_separator (d ∷ t)

-- `/` writes a separator, unless there is one.
unfoldable pub joined : Text → List Text → Text
joined directory [] = directory
joined directory (name ∷ names) =
    joined ((if ends_in_separator directory then directory else directory ++ b'/' ∷ []) ++ name)
      names

-- `fs::path(directory.empty() ? "." : directory) / name`
unfoldable pub destination : Text → List Text → Text
unfolding joined
destination directory names = joined (if is_empty directory then dot else directory) names
