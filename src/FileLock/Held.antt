-- ===== src/FileLock/Held.antt =====
-- What a lock or a stream holds after it was asked for a file.
use cloud_node.Base.{
  if◌then◌else◌, Bool-cases, Option-cases, ◌==◌, ==_iff, ==_refl, nat_ord, Text, text_ord, pair_ord,
  ℕ, ◌≡◌, refl, ◌∙◌, ◌⊎◌, inl, inr, Bool, true, false, Option, none, some, arith,
}
use cloud_node.FileLock.{Mode, Kernel, IsLawful, release, flocked, acquire, locked_ifstream}

module _ (K : Kernel) (L : IsLawful K) where
  -- The result of an acquisition is true, and the descriptor is open on the file and has the lock; or
  -- it is false, there is no descriptor, and the kernel's table is as it was.
  abbrev pub Outcome : Mode → K.State → Option ℕ × Bool × K.State → Type 0
  Outcome m k r =
      ((r.1 ≡ true)
        × (fd : ℕ) × (f : ℕ) × (r.0 ≡ some fd)
        × (K.table r.2 fd ≡ some (record { file = f; lock = some m })))
      ⊎ ((r.1 ≡ false) × (r.0 ≡ none) × ((j : ℕ) → K.table r.2 j ≡ K.table k j))

  flocked-Outcome :
      (fd f : ℕ) (m : Mode) (wait : Bool) (k s : K.State)
      → K.table k fd ≡ none
      → ((j : ℕ)
          → K.table s j
            ≡ (if j == fd then some (record { file = f; lock = none }) else K.table k j))
      → Outcome m k (flocked K fd (K.flock fd m wait s))
  flocked-Outcome fd f m wait k s n t = elim (Bool-cases (K.flock fd m wait s).1) [
    | inl b ↦
        let there : K.table s fd ≡ some (record { file = f; lock = none }) =
          t fd ∙ rw (==_refl fd) refl in
        rw b (
          inl
            (refl, fd, f, refl, L.table-flock_true fd m wait s f there b fd ∙ rw (==_refl fd) refl))
    | inr b ↦ rw b (
        inr (
          refl,
          refl,
          λ j.
              L.table-close fd j _
              ∙ ground (arith, L.table-flock_false fd m wait s b j, t j, ==_iff j fd),
        ))
  ]

  -- An acquisition succeeds with a descriptor that is open and has the lock asked for, or fails without
  -- one, and then nothing is open that was not open once the old lock was released.
  pub acquire-Outcome :
      (path : Text) (m : Mode) (wait : Bool) (fd : Option ℕ) (k : K.State)
      → Outcome m (release K fd k) (acquire K path m wait fd k)
  unfolding acquire
  acquire-Outcome path m wait fd k =
      let r = release K fd k in
      elim (Option-cases (K.open_file path m r).1) [
        | inl h ↦ rw h (inr (refl, refl, L.table-open_none path m r h))
        | inr (fd', h) ↦
            let (n, t) = L.table-open_some path m r fd' h in
            rw h (flocked-Outcome fd' _ m wait r (K.open_file path m r).0 n t)
      ]

  -- A stream that does not fail when it is made holds a shared lock, on an open descriptor.
  pub locked_ifstream-shared :
      (opens : Text → K.State → Bool) (path : Text) (k : K.State)
      → (locked_ifstream K opens path k).1 ≡ false
      → (fd : ℕ) × (f : ℕ) × ((locked_ifstream K opens path k).0 ≡ some fd)
        × (K.table (locked_ifstream K opens path k).2 fd
            ≡ some (record { file = f; lock = some Mode.shared }))
  unfolding locked_ifstream
  locked_ifstream-shared opens path k h = elim (acquire-Outcome path Mode.shared true none k) [
    | inl (b, r, f, e, t) ↦ (r, f, e, t)
    | inr (b, e, t) ↦ absurd (ground (arith, b))
  ]
