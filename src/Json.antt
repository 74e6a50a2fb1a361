-- ===== src/Json.antt =====
-- RapidJSON as the program uses it: an interface, since its code is not in the repository.
-- Strings are those that `std::string(v.GetString())` yields. `HasMember(k)` with `v[k]` is
-- `member? k v`, and `IsX()` with `GetX()` is `x?`. A call that RapidJSON forbids is a `fault`.
pub mod Values
use cloud_node.Base.{
  Text, text, ◌==◌, text_ord, Option, none, some, List, Bool, true, ◌≡◌, ◌≢◌, ℕ, if◌then◌else◌,
  ◌>>=◌,
}

-- What IsInt64/GetInt64 yield; `negsuc n` is -(n + 1).
pub data ℤ : Type 0 where
  pos : ℕ → ℤ
  negsuc : ℕ → ℤ

pub record Json : Type 1 where
  pub Value : Type 0
  -- `doc.Parse(text)`, `none` if `HasParseError()`
  pub parse : Text → Option Value
  -- `doc.Accept(writer)`
  pub write : Value → Text
  pub is_object : Value → Bool
  pub member? : Text → Value → Option Value
  pub string? : Value → Option Text
  pub int64? : Value → Option ℤ
  pub uint64? : Value → Option ℕ
  pub array? : Value → Option (List Value)
  -- `doc.SetObject()` and `doc.AddMember(k, v)`
  pub empty : Value
  pub add : Text → Value → Value → Value
  pub string : Text → Value
  pub array : List Value → Value
  -- `doc[k].SetString(s)` and `doc.EraseMember(k)`
  pub set_string : Text → Text → Value → Value
  pub erase : Text → Value → Value

-- The documented behaviour of the calls.
pub record IsLawful (J : Json) : Type 0 where
  pub string?-string : (s : Text) → J.string? (J.string s) ≡ some s
  pub array?-array : (vs : List J.Value) → J.array? (J.array vs) ≡ some vs
  pub is_object-empty : J.is_object J.empty ≡ true
  pub is_object-add : (k : Text) (x v : J.Value) → J.is_object (J.add k x v) ≡ J.is_object v
  pub member?-empty : (k : Text) → J.member? k J.empty ≡ none
  pub member?-add :
      (j k : Text) (x v : J.Value)
      → J.is_object v ≡ true
      → J.member? k v ≡ none
      → J.member? j (J.add k x v) ≡ (if j == k then some x else J.member? j v)
  pub member?-set_string :
      (j k s : Text) (v : J.Value) {w : J.Value}
      → J.member? k v ≡ some w
      → J.member? j (J.set_string k s v) ≡ (if j == k then some (J.string s) else J.member? j v)
  pub is_object-set_string :
      (k s : Text) (v : J.Value) → J.is_object (J.set_string k s v) ≡ J.is_object v
  pub is_object-erase : (k : Text) (v : J.Value) → J.is_object (J.erase k v) ≡ J.is_object v
  pub member?-erase : (j k : Text) (v : J.Value) → j ≢ k → J.member? j (J.erase k v) ≡ J.member? j v

-- The outcome of code that makes calls which RapidJSON forbids on some inputs (`v[k]` without a
-- member `k`, `GetString()` of another type, `HasMember` of what is no object).
pub data Run {ℓ} (A : Type ℓ) : Type ℓ where
  done : A → Run A
  fault : Run A

module _ (J : Json) where
  -- `v.HasMember(k) && v[k].IsString()`, with `v[k].GetString()`
  abbrev pub string_member : Text → J.Value → Option Text
  string_member k v = J.member? k v >>= J.string?

  abbrev pub array_member : Text → J.Value → Option (List J.Value)
  array_member k v = J.member? k v >>= J.array?

  abbrev pub object_here : J.Value → Option J.Value
  object_here v = if J.is_object v then some v else none

  abbrev pub object_member : Text → J.Value → Option J.Value
  object_member k v = J.member? k v >>= object_here
