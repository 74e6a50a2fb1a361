-- ===== src/Json/Values.antt =====
-- JSON values, which meet the assumptions on RapidJSON.
use cloud_node.Base.{
  ℕ, Text, ◌==◌, ==_iff, text_ord, Option, none, some, List, [], ◌∷◌, Bool, true, false, ◌≡◌, ◌≢◌,
  refl, ap, if◌then◌else◌, arith,
}
use cloud_node.Json.{Json, IsLawful, ℤ, pos, negsuc}

mutual
  pub data Val : Type 0 where
    null : Val
    str : Text → Val
    num : ℤ → Val
    arr : Vals → Val
    obj : Fields → Val

  pub data Vals : Type 0 where
    nil : Vals
    cons : Val → Vals → Vals

  pub data Fields : Type 0 where
    end : Fields
    field : Text → Val → Fields → Fields

abbrev pub find : Text → Fields → Option Val
find k end = none
find k (field j v fs) = if k == j then some v else find k fs

abbrev pub append : Text → Val → Fields → Fields
append k v end = field k v end
append k v (field j w fs) = field j w (append k v fs)

abbrev pub assign : Text → Val → Fields → Fields
assign k v end = end
assign k v (field j w fs) = if k == j then field j v fs else field j w (assign k v fs)

-- The first member of that name.
abbrev pub drop_first : Text → Fields → Fields
drop_first k end = end
drop_first k (field j w fs) = if k == j then fs else field j w (drop_first k fs)

abbrev pub to_vals : List Val → Vals
to_vals [] = nil
to_vals (v ∷ vs) = cons v (to_vals vs)

abbrev pub of_vals : Vals → List Val
of_vals nil = []
of_vals (cons v vs) = v ∷ of_vals vs

abbrev pub get_member : Text → Val → Option Val
get_member k (obj fs) = find k fs
get_member k _ = none

abbrev pub get_string : Val → Option Text
get_string (str s) = some s
get_string _ = none

abbrev pub get_int64 : Val → Option ℤ
get_int64 (num n) = some n
get_int64 _ = none

abbrev pub natural : ℤ → Option ℕ
natural (pos n) = some n
natural (negsuc n) = none

abbrev pub get_uint64 : Val → Option ℕ
get_uint64 (num n) = natural n
get_uint64 _ = none

abbrev pub get_array : Val → Option (List Val)
get_array (arr vs) = some (of_vals vs)
get_array _ = none

abbrev pub is_obj : Val → Bool
is_obj (obj fs) = true
is_obj _ = false

abbrev pub add_member : Text → Val → Val → Val
add_member k x (obj fs) = obj (append k x fs)
add_member k x v = v

abbrev pub set_member : Text → Text → Val → Val
set_member k s (obj fs) = obj (assign k (str s) fs)
set_member k s v = v

abbrev pub erase_member : Text → Val → Val
erase_member k (obj fs) = obj (drop_first k fs)
erase_member k v = v

-- The values over any parser and printer.
abbrev pub values : (Text → Option Val) → (Val → Text) → Json
values parse write = record {
  Value = Val;
  parse = parse;
  write = write;
  is_object = is_obj;
  member? = get_member;
  string? = get_string;
  int64? = get_int64;
  uint64? = get_uint64;
  array? = get_array;
  empty = obj end;
  add = add_member;
  string = str;
  array = λ vs. arr (to_vals vs);
  set_string = set_member;
  erase = erase_member;
}

of_vals-to_vals : (vs : List Val) → of_vals (to_vals vs) ≡ vs
of_vals-to_vals [] = refl
of_vals-to_vals (v ∷ vs) = ground (arith, of_vals-to_vals vs)

find-append :
    (j k : Text) (x : Val) (fs : Fields)
    → find k fs ≡ none
    → find j (append k x fs) ≡ (if j == k then some x else find j fs)
find-append j k x end h = refl
find-append j k x (field i w fs) h =
    ground (arith, ==_iff j i, ==_iff k i, ==_iff j k, find-append j k x fs)

find-assign :
    (j k : Text) (x : Val) (fs : Fields) {w : Val}
    → find k fs ≡ some w
    → find j (assign k x fs) ≡ (if j == k then some x else find j fs)
find-assign j k x end h = cc
find-assign j k x (field i w fs) {w = u} h =
    ground (arith, ==_iff j i, ==_iff k i, ==_iff j k, find-assign j k x fs {w = u})

find-drop_first : (j k : Text) (fs : Fields) → j ≢ k → find j (drop_first k fs) ≡ find j fs
find-drop_first j k end h = refl
find-drop_first j k (field i w fs) h =
    ground (arith, ==_iff j i, ==_iff k i, find-drop_first j k fs h)

module _ (parse : Text → Option Val) (write : Val → Text) where
  abbrev J : Json
  J = values parse write

  add_lem :
      (j k : Text) (x v : Val)
      → is_obj v ≡ true
      → get_member k v ≡ none
      → get_member j (add_member k x v) ≡ (if j == k then some x else get_member j v)
  add_lem j k x (obj fs) o h = find-append j k x fs h
  add_lem j k x null o h = cc
  add_lem j k x _ o h = cc

  set_lem :
      (j k s : Text) (v : Val) {w : Val}
      → get_member k v ≡ some w
      → get_member j (set_member k s v) ≡ (if j == k then some (str s) else get_member j v)
  set_lem j k s (obj fs) h = find-assign j k (str s) fs h
  set_lem j k s null h = cc
  set_lem j k s _ h = cc

  is_object_lem : (k : Text) (x v : Val) → is_obj (add_member k x v) ≡ is_obj v
  is_object_lem k x (obj fs) = refl
  is_object_lem k x null = refl
  is_object_lem k x _ = refl

  is_object-set : (k s : Text) (v : Val) → is_obj (set_member k s v) ≡ is_obj v
  is_object-set k s (obj fs) = refl
  is_object-set k s null = refl
  is_object-set k s _ = refl

  is_object-drop : (k : Text) (v : Val) → is_obj (erase_member k v) ≡ is_obj v
  is_object-drop k (obj fs) = refl
  is_object-drop k null = refl
  is_object-drop k _ = refl

  erase_lem : (j k : Text) (v : Val) → j ≢ k → get_member j (erase_member k v) ≡ get_member j v
  erase_lem j k (obj fs) h = find-drop_first j k fs h
  erase_lem j k null h = refl
  erase_lem j k _ h = refl

  -- The values meet the assumptions.
  pub values-IsLawful : IsLawful J
  values-IsLawful = record {
    string?-string = λ s. refl;
    array?-array = λ vs. ap some (of_vals-to_vals vs);
    is_object-empty = refl;
    is_object-add = is_object_lem;
    member?-empty = λ k. refl;
    member?-add = add_lem;
    member?-set_string = set_lem;
    is_object-set_string = is_object-set;
    is_object-erase = is_object-drop;
    member?-erase = erase_lem;
  }
