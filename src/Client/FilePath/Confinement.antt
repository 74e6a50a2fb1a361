-- ===== src/Client/FilePath/Confinement.antt =====
-- An offered name that is let through leads nowhere but below the directory.
use cloud_node.Base.{
  if◌then◌else◌, Bool-cases, All, ◌==◌, ==_iff, nat_ord, Text, text_ord, pair_ord, ◌≡◌, refl, sym,
  ap, ◌∙◌, subst, ◌≢◌, ◌⊎◌, inl, inr, Bool, true, false, not, ◌&&◌, ◌||◌, some, List, [], ◌∷◌, ◌++◌,
  arith,
}
use mathlib.Core.List.{reverse, reverse-cons}
use cloud_node.Client.Specs.{split, is_empty, cons_head}
use cloud_node.Client.Specs.Laws.{lacks}
use cloud_node.Client.FilePath.{
  dot, dot_dot, filenames, push, resolve, or_dot, normal, leaves_open, ended, first_is, no_names,
  offered_name,
}

-- A name of a file or directory in the directory above it.
abbrev pub IsName : Text → Type 0
IsName name = (is_empty name ≡ false) × (lacks b'/' name ≡ true)

abbrev Dots : List Text → Type 0
Dots = All (λ name. (name == dot_dot) ≡ true)

-- Below a `..` there are only such.
abbrev Settled : List Text → Type 0
Settled [] = Unit {0}
Settled (top ∷ below) =
    ((top == dot) ≡ false) × (((top == dot_dot) ≡ false) ⊎ Dots below) × Settled below

split_plain : (t : Text) → All (λ part. lacks b'/' part ≡ true) (split b'/' t)
unfolding split
split_plain [] = (refl, tt)
split_plain (c ∷ t) = cons_plain (split b'/' t) (split_plain t)
  where
    cons_plain :
        (parts : List Text)
        → All (λ part. lacks b'/' part ≡ true) parts
        → All (λ part. lacks b'/' part ≡ true) (if c == b'/' then [] ∷ parts else cons_head c parts)
    cons_plain [] a = elim (Bool-cases (c == b'/')) [
      | inl e ↦ rw e (refl, tt)
      | inr e ↦ rw e (ground (arith, e), tt)
    ]
    cons_plain (part ∷ parts) a = elim (Bool-cases (c == b'/')) [
      | inl e ↦ rw e (refl, a)
      | inr e ↦ rw e (ground (arith, e, a.0), a.1)
    ]

filenames-IsName :
    (parts : List Text) → All (λ part. lacks b'/' part ≡ true) parts → All IsName (filenames parts)
unfolding filenames
filenames-IsName [] a = tt
filenames-IsName (part ∷ parts) a = elim (Bool-cases (is_empty part)) [
  | inl e ↦ rw (e, filenames) (filenames-IsName parts a.1)
  | inr e ↦ rw (e, filenames) ((e, a.0), filenames-IsName parts a.1)
]

-- A stack of names, as `resolve` keeps it.
abbrev Stack : List Text → Type 0
Stack stack = Settled stack × All IsName stack

push-Stack :
    (name : Text) (stack : List Text)
    → (name == dot) ≡ false
    → IsName name
    → Stack stack
    → Stack (push name stack)
push-Stack name [] n i s = ((n, inr tt, tt), (i, tt))
push-Stack name (top ∷ below) n i ((d, k, r), (j, a)) = elim (Bool-cases (name == dot_dot)) [
  | inr e ↦ rw e ((n, inl e, (d, k, r)), (i, (j, a)))
  | inl e ↦ elim k [
    | inl t ↦ rw (e, t) (r, a)
    | inr dots ↦ elim (Bool-cases (top == dot_dot)) [
      | inr t ↦ rw (e, t) (r, a)
      | inl t ↦ rw (e, t) ((n, inr (t, dots), (d, inr dots, r)), (i, (j, a)))
    ]
  ]
]

resolve-Stack :
    (stack names : List Text) → All IsName names → Stack stack → Stack (resolve stack names)
unfolding resolve
resolve-Stack stack [] a s = s
resolve-Stack stack (name ∷ names) a s = elim (Bool-cases (name == dot)) [
  | inl e ↦ rw (e, resolve) (resolve-Stack stack names a.1 s)
  | inr e ↦
      rw (e, resolve) (resolve-Stack (push name stack) names a.1 (push-Stack name stack e a.0 s))
]

All-append {ℓ} : (P : Text → Type ℓ) (xs ys : List Text) → All P xs → All P ys → All P (xs ++ ys)
All-append P [] ys a b = b
All-append P (x ∷ xs) ys a b = (a.0, All-append P xs ys a.1 b)

All-reverse {ℓ} : (P : Text → Type ℓ) (xs : List Text) → All P xs → All P (reverse xs)
All-reverse P [] a = tt
All-reverse P (x ∷ xs) a =
    rw reverse-cons (All-append P (reverse xs) (x ∷ []) (All-reverse P xs a.1) (a.0, tt))

-- The last name of the stack is the first of the path.
abbrev bottom_is : Text → List Text → Bool
bottom_is k [] = false
bottom_is k (name ∷ []) = name == k
bottom_is k (top ∷ name ∷ below) = bottom_is k (name ∷ below)

first_is-snoc :
    (k x y : Text) (xs : List Text)
    → first_is k ((xs ++ y ∷ []) ++ x ∷ []) ≡ first_is k (xs ++ y ∷ [])
first_is-snoc k x y [] = refl
first_is-snoc k x y (z ∷ xs) = refl

first_is-reverse : (k : Text) (xs : List Text) → first_is k (reverse xs) ≡ bottom_is k xs
first_is-reverse k [] = refl
first_is-reverse k (x ∷ []) = refl
first_is-reverse k (x ∷ y ∷ xs) =
    rw (reverse-cons x (y ∷ xs), reverse-cons y xs)
      (first_is-snoc k x y (reverse xs)
        ∙ ap (first_is k) (sym (reverse-cons y xs))
        ∙ first_is-reverse k (y ∷ xs))

abbrev NotDotDot : Text → Type 0
NotDotDot name = (name == dot_dot) ≡ false

Dots-bottom : (x : Text) (xs : List Text) → Dots (x ∷ xs) → bottom_is dot_dot (x ∷ xs) ≡ true
Dots-bottom x [] d = d.0
Dots-bottom x (y ∷ xs) d = Dots-bottom y xs d.1

no_dot_dot :
    (stack : List Text) → Settled stack → bottom_is dot_dot stack ≡ false → All NotDotDot stack
no_dot_dot [] s b = tt
no_dot_dot (x ∷ []) s b = (b, tt)
no_dot_dot (x ∷ y ∷ below) s b = elim s.1 [
  | inl t ↦ (t, no_dot_dot (y ∷ below) s.2 b)
  | inr d ↦ absurd (ground (arith, b, Dots-bottom y below d))
]

abbrev NotDot : Text → Type 0
NotDot name = (name == dot) ≡ false

no_dot : (stack : List Text) → Settled stack → All NotDot stack
no_dot [] s = tt
no_dot (x ∷ below) s = (s.0, no_dot below s.2)

-- A name of something in the directory above it: it is no `..` and no `.`, is not empty and has no slash.
abbrev pub IsBelow : Text → Type 0
IsBelow name = (name ≢ dot_dot) × (name ≢ dot) × (is_empty name ≡ false) × (lacks b'/' name ≡ true)

IsBelow-of :
    (names : List Text)
    → All NotDotDot names
    → All NotDot names
    → All IsName names
    → All IsBelow names
IsBelow-of [] a d b = tt
IsBelow-of (name ∷ names) (n, a) (m, d) ((e, l), b) = (
  (
    λ h. ground (arith, h, n, ==_iff name dot_dot),
    λ h. ground (arith, h, m, ==_iff name dot),
    e,
    l,
  ),
  IsBelow-of names a d b,
)

-- The names of the directory itself, or of a path below it, whose last name is empty if it ends in a
-- separator.
abbrev pub IsConfined : List Text → Type 0
IsConfined names =
    (names ≡ dot ∷ [])
    ⊎ ((stem : List Text) × All IsBelow stem
        × (no_names stem ≡ false)
        × ((names ≡ stem) ⊎ (names ≡ stem ++ [] ∷ [])))

or_dot-snoc : (xs : List Text) (x : Text) → or_dot (xs ++ x ∷ []) ≡ xs ++ x ∷ []
or_dot-snoc [] x = refl
or_dot-snoc (y ∷ xs) x = refl

or_dot-reverse : (x : Text) (xs : List Text) → or_dot (reverse (x ∷ xs)) ≡ reverse (x ∷ xs)
or_dot-reverse x xs = rw (reverse-cons x xs) (or_dot-snoc (reverse xs) x)

no_names-snoc : (xs : List Text) (x : Text) → no_names (xs ++ x ∷ []) ≡ false
no_names-snoc [] x = refl
no_names-snoc (y ∷ xs) x = refl

no_names-reverse : (x : Text) (xs : List Text) → no_names (reverse (x ∷ xs)) ≡ false
no_names-reverse x xs = rw (reverse-cons x xs) (no_names-snoc (reverse xs) x)

-- A stack of names that does not begin with `..`, read from its bottom
Stack-IsBelow :
    (stack : List Text)
    → Stack stack
    → bottom_is dot_dot stack ≡ false
    → All IsBelow (reverse stack)
Stack-IsBelow stack (s, a) low =
    IsBelow-of (reverse stack) (All-reverse NotDotDot stack (no_dot_dot stack s low))
      (All-reverse NotDot stack (no_dot stack s)) (All-reverse IsName stack a)

or_dot-IsConfined :
    (is_open : Bool) (stack : List Text)
    → Stack stack
    → first_is dot_dot (or_dot (reverse (ended is_open stack))) ≡ false
    → IsConfined (or_dot (reverse (ended is_open stack)))
or_dot-IsConfined is_open [] s h = inl refl
or_dot-IsConfined is_open (top ∷ below) s h = elim (Bool-cases (is_open && not (top == dot_dot))) [
  | inl e ↦
      let names : or_dot (reverse (ended is_open (top ∷ below)))
          ≡ reverse (top ∷ below) ++ [] ∷ [] =
        rw e (or_dot-reverse [] (top ∷ below) ∙ reverse-cons [] (top ∷ below)) in
      let low : bottom_is dot_dot (top ∷ below) ≡ false =
        sym (first_is-reverse dot_dot ([] ∷ top ∷ below))
        ∙ (sym (ap (first_is dot_dot) (rw e (or_dot-reverse [] (top ∷ below)))) ∙ h) in
      inr (
        reverse (top ∷ below),
        Stack-IsBelow (top ∷ below) s low,
        no_names-reverse top below,
        inr names,
      )
  | inr e ↦
      let names : or_dot (reverse (ended is_open (top ∷ below))) ≡ reverse (top ∷ below) =
        rw e (or_dot-reverse top below) in
      let low : bottom_is dot_dot (top ∷ below) ≡ false =
        sym (first_is-reverse dot_dot (top ∷ below)) ∙ (sym (ap (first_is dot_dot) names) ∙ h) in
      inr (
        reverse (top ∷ below),
        Stack-IsBelow (top ∷ below) s low,
        no_names-reverse top below,
        inl names,
      )
]

normal-IsConfined :
    (t : Text)
    → no_names (normal t) ≡ false
    → first_is dot_dot (normal t) ≡ false
    → IsConfined (normal t)
unfolding normal
normal-IsConfined t =
    by_parts (filenames (split b'/' t)) (filenames-IsName (split b'/' t) (split_plain t))
  where
    by_parts :
        (parts : List Text)
        → All IsName parts
        → let names : List Text = elim parts [
          | [] ↦ []
          | name ∷ names ↦
              or_dot (reverse (ended (leaves_open (split b'/' t)) (resolve [] (name ∷ names))))
        ] in
          no_names names ≡ false → first_is dot_dot names ≡ false → IsConfined names
    by_parts [] a n h = absurd (ground (arith, n))
    by_parts (name ∷ names) a n h =
        or_dot-IsConfined (leaves_open (split b'/' t)) (resolve [] (name ∷ names))
          (resolve-Stack [] (name ∷ names) a (tt, tt)) h

-- Whatever the sender writes as the name of a file, if it is not refused then it is the directory itself,
-- written as `.`, or a path below it: each part of that is a plain name, no `..`, no `.`, not empty and
-- without a slash, but for an empty last one where the path ends in a separator.
pub offered_name-IsBelow :
    (t : Text) (names : List Text) → offered_name t ≡ some names → IsConfined names
unfolding offered_name
offered_name-IsBelow t names h =
    elim (Bool-cases (no_names (normal t) || first_is dot_dot (normal t))) [
      | inl e ↦ absurd (ground (arith, e, h))
      | inr e ↦
          let same : normal t ≡ names = ground (arith, e, h) in
          subst IsConfined same (normal-IsConfined t (ground (arith, e)) (ground (arith, e)))
    ]
