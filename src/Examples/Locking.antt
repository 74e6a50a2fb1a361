-- ===== src/Examples/Locking.antt =====
-- A kernel that meets the assumptions on system calls, and locks in it.
use cloud_node.Base.{
  if◌then◌else◌, Bool-cases, length, ◌==◌, ==_iff, ==_refl, nat_ord, text, text_ord, pair_ord, ℕ,
  zero, suc, ◌≡◌, refl, ap, ◌∙◌, subst, ◌≢◌, inl, inr, Bool, true, false, ◌&&◌, ◌||◌, Option, none,
  some, List, [], ◌∷◌, ◌++◌, arith,
}
use cloud_node.FileLock.{
  Mode, Entry, conflicts, Kernel, IsLawful, acquire, Locks, release, acquire_at, assign, acquires,
  assigns, start, more,
}
use cloud_node.FileLock.Ownership.{IsOwned}
use cloud_node.FileLock.Uses.{Used-IsOwned}

-- The descriptors ever given out, each open or closed.
abbrev Table : Type 0
Table = List (Option Entry)

abbrev get : Table → ℕ → Option Entry
get [] i = none
get (e ∷ k) zero = e
get (e ∷ k) (suc i) = get k i

abbrev assigned : ℕ → Option Entry → Table → Table
assigned i x [] = []
assigned zero x (e ∷ k) = x ∷ k
assigned (suc i) x (e ∷ k) = e ∷ assigned i x k

abbrev clashes : ℕ → Mode → Option Entry → Bool
clashes f m none = false
clashes f m (some e) = e.file == f && conflicts e.lock m

abbrev clash_from : ℕ → Mode → Table → Bool
clash_from f m [] = false
clash_from f m (e ∷ k) = clashes f m e || clash_from f m k

-- Whether a descriptor other than the given one clashes.
abbrev clash : ℕ → ℕ → Mode → Table → Bool
clash i f m [] = false
clash zero f m (e ∷ k) = clash_from f m k
clash (suc i) f m (e ∷ k) = clashes f m e || clash i f m k

abbrev granted : ℕ → Mode → Table → Option Entry → Table × Bool
granted fd m k none = (k, false)
granted fd m k (some e) =
    if clash fd e.file m k
    then (k, false)
    else (assigned fd (some (record { file = e.file; lock = some m })) k, true)

-- A path names the file that is numbered by its length.
abbrev kernel : Kernel
kernel = record {
  State = Table;
  open_file =
      λ path m k. (k ++ some (record { file = length path; lock = none }) ∷ [], some (length k));
  flock = λ fd m wait k. granted fd m k (get k fd);
  close = λ fd k. assigned fd none k;
  table = get;
  inode = λ path k. length path;
}

get-none : (fd j : ℕ) (k : Table) → get (assigned fd none k) j ≡ (if j == fd then none else get k j)
get-none fd j [] = ground arith
get-none zero zero (e ∷ k) = ground arith
get-none zero (suc j) (e ∷ k) = ground arith
get-none (suc fd) zero (e ∷ k) = ground arith
get-none (suc fd) (suc j) (e ∷ k) =
    ground (arith, get-none fd j k, ==_iff j fd, ==_iff (suc j) (suc fd))

get-some :
    (fd j : ℕ) (x : Entry) (k : Table) {e : Entry}
    → get k fd ≡ some e
    → get (assigned fd (some x) k) j ≡ (if j == fd then some x else get k j)
get-some fd j x [] h = cc
get-some zero zero x (e ∷ k) h = ground arith
get-some zero (suc j) x (e ∷ k) h = ground arith
get-some (suc fd) zero x (e ∷ k) h = ground arith
get-some (suc fd) (suc j) x (e ∷ k) {e = u} h =
    ground (arith, get-some fd j x k {e = u} h, ==_iff j fd, ==_iff (suc j) (suc fd))

get-end : (k : Table) → get k (length k) ≡ none
get-end [] = refl
get-end (e ∷ k) = get-end k

get-append :
    (j : ℕ) (x : Entry) (k : Table)
    → get (k ++ some x ∷ []) j ≡ (if j == length k then some x else get k j)
get-append zero x [] = refl
get-append (suc j) x [] = ground arith
get-append zero x (e ∷ k) = ground arith
get-append (suc j) x (e ∷ k) =
    ground (arith, get-append j x k, ==_iff j (length k), ==_iff (suc j) (suc (length k)))

clash_from-conflicts :
    (f j : ℕ) (m : Mode) (l : Option Mode) (k : Table)
    → clash_from f m k ≡ false
    → get k j ≡ some (record { file = f; lock = l })
    → conflicts l m ≡ false
clash_from-conflicts f j m l [] c h = cc
clash_from-conflicts f zero m l (e ∷ k) c h = ground (arith, ==_refl f)
clash_from-conflicts f (suc j) m l (e ∷ k) c h = clash_from-conflicts f j m l k (ground arith) h

clash-conflicts :
    (i f j : ℕ) (m : Mode) (l : Option Mode) (k : Table)
    → clash i f m k ≡ false
    → j ≢ i
    → get k j ≡ some (record { file = f; lock = l })
    → conflicts l m ≡ false
clash-conflicts i f j m l [] c n h = cc
clash-conflicts zero f zero m l (e ∷ k) c n h = absurd (n refl)
clash-conflicts zero f (suc j) m l (e ∷ k) c n h = clash_from-conflicts f j m l k c h
clash-conflicts (suc i) f zero m l (e ∷ k) c n h = ground (arith, ==_refl f)
clash-conflicts (suc i) f (suc j) m l (e ∷ k) c n h =
    clash-conflicts i f j m l k (ground arith) (λ p. n (ap suc p)) h

granted-false :
    (fd j : ℕ) (m : Mode) (k : Table) (o : Option Entry)
    → (granted fd m k o).1 ≡ false
    → get (granted fd m k o).0 j ≡ get k j
granted-false fd j m k none h = refl
granted-false fd j m k (some e) h = ground arith

granted-true :
    (fd f j : ℕ) (m : Mode) (k : Table) (l : Option Mode)
    → get k fd ≡ some (record { file = f; lock = l })
    → (granted fd m k (get k fd)).1 ≡ true
    → (clash fd f m k ≡ false)
      × (get (granted fd m k (get k fd)).0 j
          ≡ (if j == fd then some (record { file = f; lock = some m }) else get k j))
granted-true fd f j m k l t h = elim (Bool-cases (clash fd f m k)) [
  | inl c ↦ absurd (ground (arith, t, c))
  | inr c ↦ (c, rw t (rw c (get-some fd j _ k t)))
]

kernel-IsLawful : IsLawful kernel
kernel-IsLawful = record {
  table-close = get-none;
  table-open_none = λ path m k h. absurd (cc);
  table-open_some = λ path m k fd h.
      let e : length k ≡ fd = cc in
      (subst (λ (n : ℕ). get k n ≡ none) e (get-end k), λ j. get-append j _ k ∙ ground (arith, e));
  table-flock_false = λ fd m wait k h j. granted-false fd j m k (get k fd) h;
  table-flock_true = λ fd m wait k f t h j. (granted-true fd f j m k none t h).1;
  flock-true = λ fd m wait k f t h j l n p.
      clash-conflicts fd f j m l k (granted-true fd f j m k none t h).0 n p;
}

-- A process with one descriptor open, which is no object's.
abbrev fresh : Table
fresh = some (record { file = 9; lock = none }) ∷ []

abbrev none_yet : Locks kernel
none_yet = record { fds = λ _. none; kernel = fresh }

none_yet-compatible :
    (a b f : ℕ) (l : Option Mode) (m : Mode)
    → a ≢ b
    → get fresh a ≡ some (record { file = f; lock = some m })
    → get fresh b ≡ some (record { file = f; lock = l })
    → conflicts l m ≡ false
none_yet-compatible zero b f l m n p q = absurd (cc)
none_yet-compatible (suc a) b f l m n p q = absurd (cc)

none_yet-IsOwned : IsOwned (get fresh) none_yet.fds (kernel.table fresh)
none_yet-IsOwned = record {
  apart = λ i j fd p q. absurd (cc);
  locked = λ i fd p. absurd (cc);
  accounted = λ fd e p. inl p;
  spared = λ fd e p. p;
  foreign = λ i fd p. absurd (cc);
  compatible = none_yet-compatible;
}

-- Two objects lock two files, and the first is moved to the second, whose own lock is let go.
abbrev first : Locks kernel
first = acquire_at kernel 0 (text "a") Mode.exclusive false none_yet

abbrev second : Locks kernel
second = acquire_at kernel 1 (text "bb") Mode.shared true first

abbrev third : Locks kernel
third = assign kernel 1 0 second

Used-IsOwned_example : IsOwned (get fresh) third.fds (kernel.table third.kernel)
Used-IsOwned_example = Used-IsOwned kernel kernel-IsLawful (get fresh) none_yet-IsOwned (
    more
      (more (more start (acquires 0 (text "a") Mode.exclusive false refl))
        (acquires 1 (text "bb") Mode.shared true refl))
      (assigns 1 0 refl))

-- The first file is locked by the second object now, and the second file is closed.
third_fds : (third.fds 0 ≡ none) × (third.fds 1 ≡ some 1)
unfolding acquire_at acquire release assign
third_fds = (refl, refl)

third_table :
    third.kernel
    ≡ some (record { file = 9; lock = none })
      ∷ some (record { file = 1; lock = some Mode.exclusive })
      ∷ none
      ∷ []
unfolding acquire_at acquire release assign
third_table = refl

-- A second lock of that file that conflicts is not had.
refused : (acquire kernel (text "z") Mode.shared false none third.kernel).1 ≡ false
unfolding acquire_at acquire release assign
refused = refl
