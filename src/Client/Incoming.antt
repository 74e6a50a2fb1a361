-- ===== src/Client/Incoming.antt =====
-- The receiving side of a transfer: `StartNextIncoming`, `OnIncomingChunk` and `TakeReceivedFile`.
pub mod Queues
pub mod Transfer
pub mod Received
use cloud_node.Base.{
  text_ord, pair_ord, nat_ord, ltb, if◌then◌else◌, length, ◌==◌, Text, ℕ, zero, ◌+◌, Bool, true,
  false, not, ◌||◌, Option, none, some, List, [], ◌∷◌, ◌++◌,
}
use cloud_node.Base.Dict.{Dict, lookup, insert, erase}
use cloud_node.Base.Set
use cloud_node.Json.{ℤ, pos, negsuc}
use cloud_node.Client.State.{run, Key, IncomingFile, Client, Env}

-- What the loop of `StartNextIncoming` changes.
pub record Started : Type 0 where
  pub queue : List IncomingFile
  pub received_paths : List Text
  pub disk : Dict Text Text

abbrev pub is_zero : ℤ → Bool
is_zero (pos zero) = true
is_zero _ = false

module _ (env : Env) where
  unfoldable pub start_next_incoming : List IncomingFile → List Text → Dict Text Text → Started
  start_next_incoming [] received disk = record {
    queue = [];
    received_paths = received;
    disk = disk;
  }
  start_next_incoming (next ∷ queue) received disk =
      let skipped = start_next_incoming queue received disk in
      let emptied =
        start_next_incoming queue (Set.insert (env.absolute next.destination) received)
          (insert next.destination [] disk) in
      if next.is_open
      then record { queue = next ∷ queue; received_paths = received; disk = disk }
      else if not (env.lockable next.destination) || not (env.openable next.destination)
      then skipped
      else if is_zero next.expected_size
      then emptied
      else record {
        queue = record next { is_open = true; written = 0 } ∷ queue;
        received_paths = received;
        disk = insert next.destination [] disk;
      }

  -- A queue that is empty leaves the map.
  abbrev pub put_queue :
      Key → List IncomingFile → Dict Key (List IncomingFile) → Dict Key (List IncomingFile)
  put_queue key [] m = erase key m
  put_queue key (f ∷ q) m = insert key (f ∷ q) m

  abbrev pub put_started : Key → Started → Client → Client
  put_started key st c = record c {
    incoming_files = put_queue key st.queue c.incoming_files;
    received_paths = st.received_paths;
    disk = st.disk;
  }

  -- Where the file stands after a chunk: `tellp()` against the offered size.
  pub data Progress : Type 0 where
    failed complete exceeded unfinished : Progress

  abbrev pub compared : ℕ → ℤ → Progress
  compared n (pos m) = if ltb n m then unfinished else if n == m then complete else exceeded
  compared n (negsuc m) = exceeded

  unfoldable pub progress : IncomingFile → ℕ → Progress
  progress f position =
      if env.writable f.destination then compared position f.expected_size else failed

  abbrev pub contents : Text → Dict Text Text → Text
  contents path disk = elim (lookup path disk) [ none ↦ [] | some bytes ↦ bytes ]

  -- The front file is done: the path is noted, the stream closed, and the next file started.
  unfoldable pub finish_front : Key → IncomingFile → List IncomingFile → Client → Client
  finish_front key f queue c =
      put_started key
        (start_next_incoming queue (Set.insert (env.absolute f.destination) c.received_paths)
          c.disk)
        c

  abbrev pub after_write : Progress → Key → IncomingFile → List IncomingFile → ℕ → Client → Client
  after_write unfinished key f queue position c = record c {
    incoming_files = insert key (record f { written = position } ∷ queue) c.incoming_files;
  }
  after_write complete key f queue position c = record (finish_front key f queue c) { state = run }
  after_write _ key f queue position c = finish_front key f queue c

  unfoldable pub write_front : Key → IncomingFile → List IncomingFile → Text → Client → Client
  unfolding progress finish_front
  write_front key f queue bytes c =
      let position = f.written + length bytes in
      let disk =
        if env.writable f.destination
        then insert f.destination (contents f.destination c.disk ++ bytes) c.disk
        else c.disk in
      after_write (progress f position) key f queue position (record c { disk = disk })

  abbrev pub on_queue : Option (List IncomingFile) → Key → Text → Client → Client
  on_queue none key bytes c = c
  on_queue (some []) key bytes c = c
  on_queue (some (f ∷ queue)) key bytes c = if f.is_open then write_front key f queue bytes c else c

  unfoldable pub on_incoming_chunk : Key → Text → Client → Client
  unfolding write_front
  on_incoming_chunk key bytes c = on_queue (lookup key c.incoming_files) key bytes c

  -- Whether the path was among the received ones, which then forget it.
  unfoldable pub take_received_file : Text → Client → Client × Bool
  take_received_file path c = (
    record c { received_paths = Set.erase (env.absolute path) c.received_paths },
    Set.contains (env.absolute path) c.received_paths,
  )
