-- ===== src/PropertyBag.antt =====
-- include/PropertyBag.hpp: typed values by name.
pub mod Laws
use cloud_node.Base.{is_some, Text, text_ord, Bool, Option, none, some}
use cloud_node.Base.Dict.{Dict, lookup, insert}
use cloud_node.Json.{ℤ}

-- `PropertyBag::Value`
pub data Value : Type 0 where
  string : Text → Value
  int : ℤ → Value
  bool : Bool → Value

-- `Get`: the value, or the exception where the key is missing or its value has another type.
pub data Got {ℓ} (A : Type ℓ) : Type ℓ where
  got : A → Got A
  out_of_range bad_variant_access : Got A

-- `std::get` of a value
abbrev pub as_string : Value → Got Text
as_string (string t) = got t
as_string _ = bad_variant_access

abbrev pub as_int : Value → Got ℤ
as_int (int n) = got n
as_int _ = bad_variant_access

abbrev pub as_bool : Value → Got Bool
as_bool (bool b) = got b
as_bool _ = bad_variant_access

unfoldable pub set : Text → Value → Dict Text Value → Dict Text Value
set key value bag = insert key value bag

abbrev pub got_of {ℓ} : {A : Type ℓ} → (Value → Got A) → Option Value → Got A
got_of as_type none = out_of_range
got_of as_type (some value) = as_type value

-- `Get`, with `std::get` of the type
unfoldable pub get {ℓ} : {A : Type ℓ} → (Value → Got A) → Text → Dict Text Value → Got A
get as_type key bag = got_of as_type (lookup key bag)

unfoldable pub contains : Text → Dict Text Value → Bool
contains key bag = is_some (lookup key bag)
