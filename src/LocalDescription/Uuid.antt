-- ===== src/LocalDescription/Uuid.antt =====
-- The form of an identifier.
use cloud_node.Base.{
  length, ◌==◌, ==_iff, nat_ord, Text, text_ord, pair_ord, ℕ, zero, suc, ◌/◌, ◌<◌, ◌≡◌, refl, ap,
  ◌⊎◌, Bool, true, ◌&&◌, ◌||◌, Option, none, some, [], ◌∷◌, arith,
}
use cloud_node.LocalDescription.{version_byte, variant_byte, hex_digit, generate_uuid}

abbrev pub each_below : ℕ → (ℕ → Bool) → Bool
each_below zero p = true
each_below (suc n) p = p n && each_below n p

each_below_sound : (n : ℕ) (p : ℕ → Bool) (x : ℕ) → each_below n p ≡ true → x < n → p x ≡ true
each_below_sound zero p x h lt = absurd (omega arith)
each_below_sound (suc n) p x h lt = ground (arith, each_below_sound n p x)

-- The character at an index.
abbrev pub at : ℕ → Text → Option ℕ
at i [] = none
at zero (b ∷ t) = some b
at (suc i) (b ∷ t) = at i t

abbrev has_version : ℕ → Bool
has_version b = hex_digit (version_byte b / 16) == b'4'

abbrev is_variant : ℕ → Bool
is_variant c = c == b'8' || (c == b'9' || (c == b'A' || c == b'B'))

abbrev has_variant : ℕ → Bool
has_variant b = is_variant (hex_digit (variant_byte b / 16))

version_table : each_below 256 has_version ≡ true
version_table = refl

variant_table : each_below 256 has_variant ≡ true
variant_table = refl

version_lem : (b : ℕ) → b < 256 → hex_digit (version_byte b / 16) ≡ b'4'
version_lem b h =
    (==_iff (hex_digit (version_byte b / 16)) b'4').0
      (each_below_sound 256 has_version b version_table h)

is_variant_cases : (c : ℕ) → is_variant c ≡ true → (c ≡ b'8') ⊎ (c ≡ b'9') ⊎ (c ≡ b'A') ⊎ (c ≡ b'B')
is_variant_cases c h = ground (arith, h, ==_iff c b'8', ==_iff c b'9', ==_iff c b'A', ==_iff c b'B')

-- An identifier from sixteen bytes has 36 characters, with hyphens after 8, 13, 18 and 23 of them,
-- a `4` for its version and one of `8`, `9`, `A` and `B` for its variant.
pub generate_uuid_lem :
    (a b c d e f g h i j k l m n o p : ℕ)
    → g < 256
    → i < 256
    → let uuid =
        generate_uuid (a ∷ b ∷ c ∷ d ∷ e ∷ f ∷ g ∷ h ∷ i ∷ j ∷ k ∷ l ∷ m ∷ n ∷ o ∷ p ∷ []) in
      (length uuid ≡ 36)
      × (at 8 uuid ≡ some b'-')
      × (at 13 uuid ≡ some b'-')
      × (at 18 uuid ≡ some b'-')
      × (at 23 uuid ≡ some b'-')
      × (at 14 uuid ≡ some b'4')
      × (w : ℕ) × (at 19 uuid ≡ some w)
      × ((w ≡ b'8') ⊎ (w ≡ b'9') ⊎ (w ≡ b'A') ⊎ (w ≡ b'B'))
unfolding generate_uuid
generate_uuid_lem a b c d e f g h i j k l m n o p lg li = (
  refl,
  refl,
  refl,
  refl,
  refl,
  ap some (version_lem g lg),
  hex_digit (variant_byte i / 16),
  refl,
  is_variant_cases (hex_digit (variant_byte i / 16))
      (each_below_sound 256 has_variant i variant_table li),
)
