-- ===== src/LocalDescription.antt =====
-- src/LocalDescription.cpp: what a peer tells another of itself, and the identifiers of offers.
pub mod Uuid
use cloud_node.Base.{
  ◌>>=◌, ltb, if◌then◌else◌, ◌==◌, nat_ord, Text, text, text_ord, pair_ord, ℕ, zero, suc, ◌+◌, ◌-◌,
  ◌/◌, ◌%◌, bit_and, bit_or, Bool, true, false, ◌||◌, Option, none, some, List, [], ◌∷◌, ◌++◌,
}
use cloud_node.Json.{Json, string_member, array_member}

-- The encoder and the decoder of the base64 library: the encoder breaks lines.
pub record Base64 : Type 0 where
  pub encode : Text → Text
  pub decode : Text → Text

pub record LocalDescription : Type 0 where
  pub uuid : Text
  pub descriptions : List Text
  pub candidates : List Text

-- `(b & 0x0F) | 0x40` and `(b & 0x3F) | 0x80`
abbrev pub version_byte : ℕ → ℕ
version_byte b = bit_or (bit_and b 0x0f) 0x40

abbrev pub variant_byte : ℕ → ℕ
variant_byte b = bit_or (bit_and b 0x3f) 0x80

-- `bytes[i] = f(bytes[i])`
abbrev pub modify_at : ℕ → (ℕ → ℕ) → List ℕ → List ℕ
modify_at i f [] = []
modify_at zero f (b ∷ bytes) = f b ∷ bytes
modify_at (suc i) f (b ∷ bytes) = b ∷ modify_at i f bytes

-- A digit as `std::hex << std::uppercase` writes it.
abbrev pub hex_digit : ℕ → ℕ
hex_digit d = if ltb d 10 then b'0' + d else b'A' + (d - 10)

abbrev pub hex_byte : ℕ → Text
hex_byte b = hex_digit (b / 16) ∷ hex_digit (b % 16) ∷ []

-- The loop that writes the bytes, from the one with index `i`.
abbrev pub hex_from : ℕ → List ℕ → Text
hex_from i [] = []
hex_from i (b ∷ bytes) =
    let digits = hex_byte b ++ hex_from (i + 1) bytes in
    if i == 4 || (i == 6 || (i == 8 || i == 10)) then b'-' ∷ digits else digits

-- `generateUUID`, with the sixteen bytes that the generator yields
unfoldable pub generate_uuid : List ℕ → Text
generate_uuid bytes = hex_from 0 (modify_at 8 variant_byte (modify_at 6 version_byte bytes))

-- The bytes other than line feeds and carriage returns.
unfoldable pub without_breaks : Text → Text
without_breaks [] = []
without_breaks (b ∷ t) =
    let rest = without_breaks t in if b == 10 || b == 13 then rest else b ∷ rest

abbrev pub is_empty_text : Text → Bool
is_empty_text [] = true
is_empty_text (b ∷ t) = false

module _ (base64 : Base64) where
  unfoldable pub base64_encode : Text → Option Text
  unfolding without_breaks
  base64_encode input =
      if is_empty_text input then none else some (without_breaks (base64.encode input))

  unfoldable pub base64_decode : Text → Option Text
  base64_decode input = if is_empty_text input then none else some (base64.decode input)

  -- An item in quotes; one that is empty is written as nothing.
  abbrev pub item_json : Option Text → Text
  item_json none = []
  item_json (some encoded) = b'"' ∷ (encoded ++ text "\"")

  -- The items with a comma before each but the first.
  abbrev pub items_from : Bool → List Text → Text
  items_from first [] = []
  items_from first (item ∷ items) =
      (if first then [] else text ",") ++ (item_json (base64_encode item) ++ items_from false items)

  unfoldable pub descriptions_json : LocalDescription → Text
  unfolding base64_encode
  descriptions_json d = text "\"descriptions\" :[" ++ (items_from true d.descriptions ++ text "]")

  unfoldable pub candidates_json : LocalDescription → Text
  unfolding base64_encode
  candidates_json d = text "\"candidates\" :[" ++ (items_from true d.candidates ++ text "]")

  abbrev append_array : Text → List Text → Text
  append_array name items = text "," ++ (name ++ (text ":[" ++ (items_from true items ++ text "]")))

  unfoldable pub to_json : LocalDescription → Text
  unfolding base64_encode
  to_json d =
      text "{\"UUID\":\""
      ++ (d.uuid
          ++ (text "\""
              ++ (append_array (text "\"descriptions\"") d.descriptions
                  ++ (append_array (text "\"candidates\"") d.candidates ++ text "}"))))

  module _ (J : Json) where
    abbrev pub decoded : Option Text → List Text → List Text
    decoded none target = target
    decoded (some t) target = target ++ t ∷ []

    -- `processArrays` over the values, behind those that are there.
    abbrev pub process_values : List J.Value → List Text → List Text
    process_values [] target = target
    process_values (v ∷ vs) target =
        process_values vs (decoded (J.string? v >>= base64_decode) target)

    abbrev pub process_array : Option (List J.Value) → List Text
    process_array none = []
    process_array (some values) = process_values values []

    abbrev or_nothing : Option Text → Text
    or_nothing none = []
    or_nothing (some t) = t

    abbrev described : Option J.Value → LocalDescription
    described none = record { uuid = []; descriptions = []; candidates = [] }
    described (some doc) = record {
      uuid = or_nothing (string_member J (text "UUID") doc);
      descriptions = process_array (array_member J (text "descriptions") doc);
      candidates = process_array (array_member J (text "candidates") doc);
    }

    -- The constructor from a text.
    unfoldable pub of_json : Text → LocalDescription
    unfolding base64_decode
    of_json json = described (J.parse json)
