-- ===== src/FileWatcher.antt =====
-- src/FileWatcher.cpp: changes of a directory tree, debounced.
pub mod Coalescing
pub mod Quiet
pub mod Events
pub mod Loop
pub mod Stopping
use cloud_node.Base.{
  text_ord, nat_ord, ltb, if◌then◌else◌, Text, ℕ, ◌+◌, Bool, true, ◌||◌, Option, none, some, List,
  [], ◌∷◌, ◌++◌,
}
use cloud_node.Base.Dict.{Dict, lookup, insert, erase}
use cloud_node.Base.Set

pub data FileChange : Type 0 where
  added modified removed : FileChange

-- What `fs::directory_iterator` finds in a directory, symbolic links apart from what they name.
mutual
  pub data Entry : Type 0 where
    symlink : Entry
    regular_file : Entry
    other : Entry
    directory : Entries → Entry

  pub data Entries : Type 0 where
    end : Entries
    entry : Text → Entry → Entries → Entries

-- The state of the thread that `Run` is; `delivered` are the calls of the callback so far. Times are
-- in milliseconds.
pub record Watcher : Type 0 where
  -- `m_pending`, `m_deadline`, `m_timeout`
  pub pending : Dict Text FileChange
  pub deadline : ℕ
  pub timeout : ℕ
  -- `m_watches`, `m_created`
  pub watches : Dict ℕ Text
  pub created : List Text
  -- Whether `m_callback` is set.
  pub callback : Bool
  pub delivered : List (Text × FileChange)

-- The change that stands for two changes of one path.
unfoldable pub coalesce : FileChange → FileChange → FileChange
coalesce added modified = added
coalesce removed added = modified
coalesce previous change = change

abbrev pub noted : Option FileChange → FileChange → FileChange
noted none change = change
noted (some previous) change = coalesce previous change

-- `m_pending.try_emplace(path, change)` and the merge where the path is there.
unfoldable pub notify : ℕ → Text → FileChange → Watcher → Watcher
unfolding coalesce
notify now path change w = record w {
  pending = insert path (noted (lookup path w.pending) change) w.pending;
  deadline = now + w.timeout;
}

unfoldable pub flush_if_quiet : ℕ → Watcher → Watcher
flush_if_quiet now w = elim w.pending [
  | [] ↦ w
  | p ∷ ps ↦ if ltb now w.deadline then w else record w {
    pending = [];
    delivered = w.delivered ++ (if w.callback then w.pending else []);
  }
]

-- `path / name`
abbrev pub ◌//◌ : Text → Text → Text
◌//◌ dir name = dir ++ (b'/' ∷ name)

-- `inotify_add_watch` is the kernel's; `none` is a failure.
module _ (add_watch : Text → Option ℕ) (now : ℕ) where
  unfoldable mutual
    pub add_entries : Text → Bool → Entries → Watcher → Watcher
    add_entries dir report end w = w
    add_entries dir report (entry name e es) w =
        add_entries dir report es (add_entry (◌//◌ dir name) report e w)

    pub add_entry : Text → Bool → Entry → Watcher → Watcher
    add_entry path report symlink w = w
    add_entry path report (directory es) w = elim (add_watch path) [
      | none ↦ w
      | some wd ↦ add_entries path report es (record w { watches = insert wd path w.watches })
    ]
    add_entry path report regular_file w = if report then notify now path added w else w
    add_entry path report other w = w

  -- `AddWatchTree`
  unfoldable pub add_watch_tree : Text → Bool → Entries → Watcher → Watcher
  add_watch_tree dir report es w = elim (add_watch dir) [
    | none ↦ w
    | some wd ↦ add_entries dir report es (record w { watches = insert wd dir w.watches })
  ]

-- An `inotify_event`: the bits of the mask that are read, and no name if `len` is 0.
pub record Event : Type 0 where
  pub wd : ℕ
  pub name : Option Text
  pub ignored : Bool
  pub is_dir : Bool
  pub create : Bool
  pub moved_to : Bool
  pub close_write : Bool
  pub delete : Bool
  pub moved_from : Bool

-- `tree` is what a directory holds when it is read.
module _ (add_watch : Text → Option ℕ) (tree : Text → Entries) (now : ℕ) where
  -- The part of the loop's body behind the checks, for the path of the event.
  unfoldable pub handle_path : Text → Event → Watcher → Watcher
  handle_path path e w =
      if e.create || e.moved_to
      then (if e.is_dir
          then add_watch_tree add_watch now path true (tree path) w
          else if e.moved_to
          then notify now path added w
          else record w { created = Set.insert path w.created })
      else if e.close_write
      then (if e.is_dir
          then w
          else notify now path (if Set.contains path w.created then added else modified)
              (record w { created = Set.erase path w.created }))
      else if e.delete || e.moved_from
      then (if e.is_dir
          then w
          else notify now path removed (record w { created = Set.erase path w.created }))
      else w

  named : Option Text → Option Text → Event → Watcher → Watcher
  named (some dir) (some name) e w = handle_path (◌//◌ dir name) e w
  named _ _ e w = w

  unfoldable pub handle_event : Event → Watcher → Watcher
  unfolding named
  handle_event e w =
      if e.ignored
      then record w { watches = erase e.wd w.watches }
      else named (lookup e.wd w.watches) e.name e w

  -- `HandleEvents`, over the events that the buffer holds.
  unfoldable pub handle_events : List Event → Watcher → Watcher
  handle_events [] w = w
  handle_events (e ∷ es) w = handle_events es (handle_event e w)

-- `OnFile`
unfoldable pub on_file : Bool → ℕ → Watcher → Watcher
on_file callback timeout w = record w { callback = callback; timeout = timeout }
