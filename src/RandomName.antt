-- ===== src/RandomName.antt =====
-- include/RandomName.hpp: names of four words and a number, with what the distributions yield given.
pub mod Plain
use cloud_node.Base.{
  ◌>>=◌, nat_ord, Text, text, text_ord, pair_ord, ℕ, zero, suc, Option, none, some, List, [], ◌∷◌,
  ◌++◌,
}
use cloud_node.Base.Decimal.{decimal}

abbrev pub get_elem? : List Text → ℕ → Option Text
get_elem? [] i = none
get_elem? (x ∷ xs) zero = some x
get_elem? (x ∷ xs) (suc i) = get_elem? xs i

abbrev pub animals : List Text
animals =
    text "Bear"
    ∷ text "Eagle"
    ∷ text "Falcon"
    ∷ text "Fox"
    ∷ text "Lion"
    ∷ text "Otter"
    ∷ text "Panther"
    ∷ text "Tiger"
    ∷ text "Wolf"
    ∷ []

abbrev pub objects : List Text
objects =
    text "Anchor"
    ∷ text "Compass"
    ∷ text "Crystal"
    ∷ text "Hammer"
    ∷ text "Lantern"
    ∷ text "Mirror"
    ∷ text "Shield"
    ∷ text "Sword"
    ∷ []

abbrev pub verbs : List Text
verbs =
    text "Dancing"
    ∷ text "Flying"
    ∷ text "Howling"
    ∷ text "Leaping"
    ∷ text "Running"
    ∷ text "Soaring"
    ∷ text "Stalking"
    ∷ text "Swimming"
    ∷ []

abbrev pub nouns : List Text
nouns =
    text "Breeze"
    ∷ text "Canyon"
    ∷ text "Forest"
    ∷ text "Mountain"
    ∷ text "Ocean"
    ∷ text "River"
    ∷ text "Shadow"
    ∷ text "Thunder"
    ∷ []

-- What the five distributions yield.
pub record Draws : Type 0 where
  pub animal : ℕ
  pub object : ℕ
  pub verb : ℕ
  pub noun : ℕ
  pub number : ℕ

-- `Generate`, none where an index is out of range.
unfoldable pub generate : Draws → Option Text
unfolding decimal
generate d = do
  animal ← get_elem? animals d.animal
  object ← get_elem? objects d.object
  verb ← get_elem? verbs d.verb
  noun ← get_elem? nouns d.noun
  some (animal ++ (object ++ (verb ++ (noun ++ (text "#" ++ decimal d.number)))))
