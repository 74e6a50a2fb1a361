-- ===== src/Client/Incoming/Queues.antt =====
-- The queues of incoming files between two events.
use cloud_node.Base.{
  if◌then◌else◌, Bool-cases, length, All, ◌==◌, nat_ord, Text, text_ord, pair_ord, ℕ, zero, suc,
  ◌+◌, ◌<◌, ◌≡◌, refl, sym, subst, inl, inr, Bool, true, false, not, ◌||◌, Option, none, some, List,
  [], ◌∷◌, arith,
}
use cloud_node.Base.Dict.{Dict, lookup, lookup-insert, lookup-erase}
use cloud_node.Json.{ℤ, pos, negsuc}
use cloud_node.Client.State.{Key, IncomingFile, Client, Env}
use cloud_node.Client.Incoming.{
  start_next_incoming, is_zero, put_queue, Progress, unfinished, complete, failed, exceeded,
  compared, progress, finish_front, after_write, on_queue, write_front, on_incoming_chunk,
}

-- Something is still to come.
abbrev pub Lacks : ℕ → ℤ → Type 0
Lacks n (pos m) = n < m
Lacks n (negsuc m) = n ≡ 0

abbrev pub Closed : List IncomingFile → Type 0
Closed = All (λ f. f.is_open ≡ false)

-- The first file is open and lacks something, and the others wait.
abbrev pub Running : List IncomingFile → Type 0
Running [] = ⊥
Running (f ∷ q) = (f.is_open ≡ true) × Lacks f.written f.expected_size × Closed q

-- Nothing is left, or the first file runs.
abbrev Settled : List IncomingFile → Type 0
Settled [] = Unit {0}
Settled (f ∷ q) = Running (f ∷ q)

-- Every queue that is kept has a file that runs.
abbrev pub QueuesRun : Dict Key (List IncomingFile) → Type 0
QueuesRun m = (key : Key) (q : List IncomingFile) → lookup key m ≡ some q → Running q

Lacks-zero : (n : ℤ) → is_zero n ≡ false → Lacks 0 n
Lacks-zero (pos zero) h = absurd (cc)
Lacks-zero (pos (suc n)) h = omega arith
Lacks-zero (negsuc n) h = refl

module _ (env : Env) where
  pub start_next_incoming-Settled :
      (q : List IncomingFile) (received : List Text) (disk : Dict Text Text)
      → Closed q
      → Settled (start_next_incoming env q received disk).queue
  unfolding start_next_incoming
  start_next_incoming-Settled [] received disk h = tt
  start_next_incoming-Settled (f ∷ q) received disk h =
      rw (h.0, start_next_incoming)
        (elim (Bool-cases (not (env.lockable f.destination) || not (env.openable f.destination))) [
          | inl e ↦ rw e (start_next_incoming-Settled q received disk h.1)
          | inr e ↦ elim (Bool-cases (is_zero f.expected_size)) [
            | inl z ↦ rw (e, z) (start_next_incoming-Settled q _ _ h.1)
            | inr z ↦ rw (e, z) (refl, Lacks-zero f.expected_size z, h.1)
          ]
        ])

  pub put_queue-QueuesRun :
      (key : Key) (q : List IncomingFile) (m : Dict Key (List IncomingFile))
      → Settled q
      → QueuesRun m
      → QueuesRun (put_queue env key q m)
  put_queue-QueuesRun key [] m s r j p h = r j p (ground (arith, h, lookup-erase j key m))
  put_queue-QueuesRun key (f ∷ q) m s r j p h = elim (Bool-cases (j == key)) [
    | inl e ↦
        let same : f ∷ q ≡ p = ground (arith, h, e, lookup-insert j key (f ∷ q) m) in
        subst Running same s
    | inr e ↦ r j p (ground (arith, h, e, lookup-insert j key (f ∷ q) m))
  ]

  finish_front-QueuesRun :
      (key : Key) (f : IncomingFile) (q : List IncomingFile) (c : Client)
      → Closed q
      → QueuesRun c.incoming_files
      → QueuesRun (finish_front env key f q c).incoming_files
  unfolding finish_front
  finish_front-QueuesRun key f q c h r =
      put_queue-QueuesRun key _ c.incoming_files (start_next_incoming-Settled q _ _ h) r

  compared_unfinished : (n : ℕ) (m : ℤ) → compared env n m ≡ unfinished → Lacks n m
  compared_unfinished n (pos m) h = ground arith
  compared_unfinished n (negsuc m) h = absurd (cc)

  progress_unfinished :
      (f : IncomingFile) (n : ℕ) → progress env f n ≡ unfinished → Lacks n f.expected_size
  unfolding progress
  progress_unfinished f n h = elim (Bool-cases (env.writable f.destination)) [
    | inl e ↦ compared_unfinished n f.expected_size (rw (e, progress) at h)
    | inr e ↦ absurd (ground (arith, e, h))
  ]

  after_write-QueuesRun :
      (p : Progress env) (key : Key) (f : IncomingFile) (q : List IncomingFile) (n : ℕ) (c : Client)
      → progress env f n ≡ p
      → f.is_open ≡ true
      → Closed q
      → QueuesRun c.incoming_files
      → QueuesRun (after_write env p key f q n c).incoming_files
  after_write-QueuesRun unfinished key f q n c e o h r =
      put_queue-QueuesRun key (record f { written = n } ∷ q) c.incoming_files
        (o, progress_unfinished f n e, h) r
  after_write-QueuesRun complete key f q n c e o h r = finish_front-QueuesRun key f q c h r
  after_write-QueuesRun failed key f q n c e o h r = finish_front-QueuesRun key f q c h r
  after_write-QueuesRun exceeded key f q n c e o h r = finish_front-QueuesRun key f q c h r

  write_front-QueuesRun :
      (key : Key) (f : IncomingFile) (q : List IncomingFile) (bytes : Text) (c : Client)
      → f.is_open ≡ true
      → Closed q
      → QueuesRun c.incoming_files
      → QueuesRun (write_front env key f q bytes c).incoming_files
  unfolding write_front
  write_front-QueuesRun key f q bytes c o h r =
      after_write-QueuesRun (progress env f (f.written + length bytes)) key f q
        (f.written + length bytes) _ refl o h r

  -- A chunk keeps the queues running: after it, each queue that is kept has a first file that is
  -- open and lacks something, and the files behind it are not open.
  pub on_incoming_chunk-QueuesRun :
      (key : Key) (bytes : Text) (c : Client)
      → QueuesRun c.incoming_files
      → QueuesRun (on_incoming_chunk env key bytes c).incoming_files
  unfolding on_incoming_chunk
  on_incoming_chunk-QueuesRun key bytes c r = by_queue (lookup key c.incoming_files) refl
    where
      by_queue :
          (o : Option (List IncomingFile))
          → lookup key c.incoming_files ≡ o
          → QueuesRun (on_queue env o key bytes c).incoming_files
      by_queue none e = r
      by_queue (some []) e = r
      by_queue (some (f ∷ q)) e =
          let (o, l, h) = r key (f ∷ q) e in
          subst
            (λ (b : Bool).
              QueuesRun (if b then write_front env key f q bytes c else c).incoming_files)
            (sym o) (write_front-QueuesRun key f q bytes c o h r)
