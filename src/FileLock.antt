-- ===== src/FileLock.antt =====
-- include/FileLock.hpp: locks of files over open(2), flock(2) and close(2), and the objects that own
-- their descriptors.
pub mod Ownership
pub mod Uses
pub mod Held
use cloud_node.Base.{
  if◌then◌else◌, ◌==◌, nat_ord, Text, text_ord, pair_ord, ℕ, ◌≡◌, ◌≢◌, Bool, true, false, not, ◌&&◌,
  Option, none, some,
}

pub data Mode : Type 0 where
  shared exclusive : Mode

-- What the kernel has for a descriptor: the file, and the lock that the descriptor holds.
pub record Entry : Type 0 where
  pub file : ℕ
  pub lock : Option Mode

abbrev pub conflicts : Option Mode → Mode → Bool
conflicts none m = false
conflicts (some Mode.exclusive) m = true
conflicts (some Mode.shared) Mode.exclusive = true
conflicts (some Mode.shared) Mode.shared = false

-- The system calls, on a kernel's state: `open` with the flags of a mode, `flock` with a mode and
-- whether to wait, and `close`; a descriptor that is not had is `none`.
pub record Kernel : Type 1 where
  pub State : Type 0
  pub open_file : Text → Mode → State → State × Option ℕ
  pub flock : ℕ → Mode → Bool → State → State × Bool
  pub close : ℕ → State → State
  -- The open descriptors, and the file that a path names.
  pub table : State → ℕ → Option Entry
  pub inode : Text → State → ℕ

-- Their documented behaviour.
pub record IsLawful (K : Kernel) : Type 0 where
  pub table-close :
      (fd j : ℕ) (k : K.State) → K.table (K.close fd k) j ≡ (if j == fd then none else K.table k j)
  pub table-open_none :
      (path : Text) (m : Mode) (k : K.State)
      → (K.open_file path m k).1 ≡ none
      → (j : ℕ) → K.table (K.open_file path m k).0 j ≡ K.table k j
  pub table-open_some :
      (path : Text) (m : Mode) (k : K.State) (fd : ℕ)
      → (K.open_file path m k).1 ≡ some fd
      → (K.table k fd ≡ none)
        × ((j : ℕ)
            → K.table (K.open_file path m k).0 j ≡ (
                if j == fd
                then some (record { file = K.inode path (K.open_file path m k).0; lock = none })
                else K.table k j))
  pub table-flock_false :
      (fd : ℕ) (m : Mode) (wait : Bool) (k : K.State)
      → (K.flock fd m wait k).1 ≡ false
      → (j : ℕ) → K.table (K.flock fd m wait k).0 j ≡ K.table k j
  pub table-flock_true :
      (fd : ℕ) (m : Mode) (wait : Bool) (k : K.State) (f : ℕ)
      → K.table k fd ≡ some (record { file = f; lock = none })
      → (K.flock fd m wait k).1 ≡ true
      → (j : ℕ)
      → K.table (K.flock fd m wait k).0 j
        ≡ (if j == fd then some (record { file = f; lock = some m }) else K.table k j)
  -- A lock is granted where no other descriptor of the file has one that conflicts.
  pub flock-true :
      (fd : ℕ) (m : Mode) (wait : Bool) (k : K.State) (f : ℕ)
      → K.table k fd ≡ some (record { file = f; lock = none })
      → (K.flock fd m wait k).1 ≡ true
      → (j : ℕ) (l : Option Mode) → j ≢ fd
      → K.table k j ≡ some (record { file = f; lock = l })
      → conflicts l m ≡ false

abbrev pub put : ℕ → Option ℕ → (ℕ → Option ℕ) → ℕ → Option ℕ
put i fd fds = λ j. if j == i then fd else fds j

module _ (K : Kernel) where
  -- `Release`, for `m_fd`, which it leaves empty
  unfoldable pub release : Option ℕ → K.State → K.State
  release none k = k
  release (some fd) k = K.close fd k

  abbrev pub flocked : ℕ → K.State × Bool → Option ℕ × Bool × K.State
  flocked fd (k, true) = (some fd, true, k)
  flocked fd (k, false) = (none, false, K.close fd k)

  abbrev pub opened : Mode → Bool → K.State × Option ℕ → Option ℕ × Bool × K.State
  opened m wait (k, none) = (none, false, k)
  opened m wait (k, some fd) = flocked fd (K.flock fd m wait k)

  -- `Acquire`: `m_fd` afterwards, the result and the kernel.
  unfoldable pub acquire : Text → Mode → Bool → Option ℕ → K.State → Option ℕ × Bool × K.State
  unfolding release
  acquire path m wait fd k = opened m wait (K.open_file path m (release fd k))

  -- `LockedIfstream`'s constructor: whether the stream itself opens is the library's. The flag is
  -- `failbit`.
  unfoldable pub locked_ifstream :
      (Text → K.State → Bool) → Text → K.State → Option ℕ × Bool × K.State
  unfolding acquire
  locked_ifstream opens path k =
      let (fd, had, k') = acquire path Mode.shared true none k in
      (fd, not (had && opens path k'), k')

  -- The objects by number, each with its `m_fd`, and the kernel.
  pub record Locks : Type 0 where
    pub fds : ℕ → Option ℕ
    pub kernel : K.State

  unfoldable pub acquire_at : ℕ → Text → Mode → Bool → Locks → Locks
  unfolding acquire
  acquire_at i path m wait s =
      let (fd, had, k) = acquire path m wait (s.fds i) s.kernel in
      record { fds = put i fd s.fds; kernel = k }

  -- `Release` and the destructor.
  unfoldable pub release_at : ℕ → Locks → Locks
  unfolding release
  release_at i s = record { fds = put i none s.fds; kernel = release (s.fds i) s.kernel }

  -- The move constructor, for a new object `i`.
  unfoldable pub move_to : ℕ → ℕ → Locks → Locks
  move_to i j s = record s { fds = put i (s.fds j) (put j none s.fds) }

  -- The move assignment.
  unfoldable pub assign : ℕ → ℕ → Locks → Locks
  unfolding release
  assign i j s =
      if i == j
      then s
      else record { fds = put i (s.fds j) (put j none s.fds); kernel = release (s.fds i) s.kernel }

  -- What a program does with its objects. An object that is new has no descriptor.
  pub data Use : Locks → Locks → Type 0 where
    acquires :
        (i : ℕ) (path : Text) (m : Mode) (wait : Bool) {s t : Locks}
        → t ≡ acquire_at i path m wait s
        → Use s t
    releases : (i : ℕ) {s t : Locks} → t ≡ release_at i s → Use s t
    moves : (i j : ℕ) {s t : Locks} → s.fds i ≡ none → i ≢ j → t ≡ move_to i j s → Use s t
    assigns : (i j : ℕ) {s t : Locks} → t ≡ assign i j s → Use s t

  pub data Used (s : Locks) : Locks → Type 0 where
    start : Used s s
    more : {t u : Locks} → Used s t → Use t u → Used s u
