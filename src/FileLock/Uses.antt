-- ===== src/FileLock/Uses.antt =====
-- Every use of the objects keeps their ownership.
use cloud_node.Base.{
  if◌then◌else◌, Bool-cases, Option-cases, ◌==◌, ==_iff, ==_refl, nat_ord, Text, text_ord, pair_ord,
  ℕ, ◌≡◌, refl, ◌∙◌, inl, inr, Bool, Option, none, some, arith,
}
use cloud_node.FileLock.{
  Mode, Entry, Kernel, IsLawful, put, release, flocked, opened, acquire, Locks, acquire_at,
  release_at, move_to, assign, Use, acquires, releases, moves, assigns, Used, start, more,
}
use cloud_node.FileLock.Ownership.{IsOwned, same, drop_some, add, take_over}

module _ (K : Kernel) (L : IsLawful K) (base : ℕ → Option Entry) where
  abbrev pub Owned : Locks K → Type 0
  Owned s = IsOwned base s.fds (K.table s.kernel)

  release_at-Owned : (i : ℕ) (s : Locks K) → Owned s → Owned (release_at K i s)
  unfolding release_at release
  release_at-Owned i s o = elim (Option-cases (s.fds i)) [
    | inl e ↦ same o _ _ (λ a. ground (arith, ==_iff a i)) (λ fd. rw e refl)
    | inr (fd, e) ↦
        same (drop_some o i fd (K.table (K.close fd s.kernel)) e (λ j. L.table-close fd j s.kernel))
          _ _ (λ a. refl) (λ j. rw e refl)
  ]

  abbrev got : ℕ → (ℕ → Option ℕ) → Option ℕ × Bool × K.State → Locks K
  got i fds (fd, had, k) = record { fds = put i fd fds; kernel = k }

  flocked-Owned :
      (i fd f : ℕ) (m : Mode) (wait : Bool) (s : Locks K) (table : ℕ → Option Entry)
      → IsOwned base s.fds table
      → s.fds i ≡ none
      → table fd ≡ none
      → ((j : ℕ)
          → K.table s.kernel j
            ≡ (if j == fd then some (record { file = f; lock = none }) else table j))
      → Owned (got i s.fds (flocked K fd (K.flock fd m wait s.kernel)))
  flocked-Owned i fd f m wait s table o e n t =
      let there : K.table s.kernel fd ≡ some (record { file = f; lock = none }) =
        t fd ∙ rw (==_refl fd) refl in
      elim (Bool-cases (K.flock fd m wait s.kernel).1) [
        | inl b ↦ rw b (
            add o i fd f m _ e n
              (λ j.
                L.table-flock_true fd m wait s.kernel f there b j
                ∙ ground (arith, t j, ==_iff j fd))
              (λ j l d p.
                L.flock-true fd m wait s.kernel f there b j l d
                  (t j ∙ ground (arith, ==_iff j fd))))
        | inr b ↦ rw b (
            same o _ _ (λ a. ground (arith, ==_iff a i))
              (λ j.
                L.table-close fd j _
                ∙ ground (arith, L.table-flock_false fd m wait s.kernel b j, t j, ==_iff j fd)))
      ]

  opened-Owned :
      (i : ℕ) (path : Text) (m : Mode) (wait : Bool) (s : Locks K)
      → Owned s
      → s.fds i ≡ none
      → Owned (got i s.fds (opened K m wait (K.open_file path m s.kernel)))
  opened-Owned i path m wait s o e = elim (Option-cases (K.open_file path m s.kernel).1) [
    | inl h ↦
        rw h (same o _ _ (λ a. ground (arith, ==_iff a i)) (L.table-open_none path m s.kernel h))
    | inr (fd, h) ↦
        let (n, t) = L.table-open_some path m s.kernel fd h in
        rw h (
          flocked-Owned i fd _ m wait (record s { kernel = (K.open_file path m s.kernel).0 }) _ o e
            n t)
  ]

  acquire_at-Owned :
      (i : ℕ) (path : Text) (m : Mode) (wait : Bool) (s : Locks K)
      → Owned s
      → Owned (acquire_at K i path m wait s)
  unfolding acquire_at acquire release_at
  acquire_at-Owned i path m wait s o =
      let r = release_at K i s in
      same (opened-Owned i path m wait r (release_at-Owned i s o) (ground (arith, ==_refl i))) _ _
        (λ a. ground (arith, ==_iff a i)) (λ fd. refl)

  assign-Owned : (i j : ℕ) (s : Locks K) → Owned s → Owned (assign K i j s)
  unfolding assign release_at
  assign-Owned i j s o = elim (Bool-cases (i == j)) [
    | inl e ↦ rw e o
    | inr e ↦ rw e (
        same
          (take_over (release_at-Owned i s o) i j (ground (arith, ==_refl i))
            (ground (arith, ==_iff i j)))
          _ _ (λ a. ground (arith, ==_iff a i, ==_iff a j, ==_iff i j, ==_iff j i)) (λ fd. refl))
  ]

  Use-Owned : {s t : Locks K} → Owned s → Use K s t → Owned t
  unfolding move_to
  Use-Owned {s} o (acquires i path m wait e) = rw e (acquire_at-Owned i path m wait s o)
  Use-Owned {s} o (releases i e) = rw e (release_at-Owned i s o)
  Use-Owned {s} o (moves i j h n e) = rw e (take_over o i j h n)
  Use-Owned {s} o (assigns i j e) = rw e (assign-Owned i j s o)

  -- However a program locks, releases, moves and assigns its objects, from a state in which they own
  -- their descriptors: no two objects have one descriptor, what an object has is open and locked, every
  -- open descriptor belongs to an object or was open before, those that were open before still are, and
  -- no two descriptors hold conflicting locks on one file.
  pub Used-IsOwned : {s t : Locks K} → Owned s → Used K s t → IsOwned base t.fds (K.table t.kernel)
  Used-IsOwned o start = o
  Used-IsOwned o (more u v) = Use-Owned (Used-IsOwned o u) v
