-- ===== src/FileWatcher/Events.antt =====
-- What the kernel's events and the walk of a new directory lead to.
use cloud_node.Base.{
  if◌then◌else◌, Option-cases, is_some, ==_refl, nat_ord, Text, text_ord, pair_ord, ℕ, ◌≡◌, refl,
  inl, inr, true, false, ◌||◌, Option, none, some, List, [], ◌∷◌, ◌++◌, arith,
}
use cloud_node.Base.Dict.{lookup, insert, lookup-insert}
use cloud_node.Base.Set
use cloud_node.FileWatcher.{
  added, modified, Entry, symlink, regular_file, other, directory, Entries, end, entry, Watcher,
  noted, notify, ◌//◌, add_entries, add_entry, add_watch_tree, Event, handle_path, handle_event,
  handle_events,
}

abbrev pub file_event : ℕ → Text → Event
file_event wd name = record {
  wd = wd;
  name = some name;
  ignored = false;
  is_dir = false;
  create = false;
  moved_to = false;
  close_write = false;
  delete = false;
  moved_from = false;
}

module _ (add_watch : Text → Option ℕ) (tree : Text → Entries) (now : ℕ) where
  -- A file that is created in a watched directory and then written and closed is pending as added,
  -- if it was not pending before; one that is written without having been created as modified.
  pub create_then_write :
      (wd : ℕ) (dir name : Text) (w : Watcher)
      → lookup wd w.watches ≡ some dir
      → lookup (◌//◌ dir name) w.pending ≡ none
      → let created = record (file_event wd name) { create = true } in
        let written = record (file_event wd name) { close_write = true } in
        (lookup
            (◌//◌ dir name)
            (handle_events add_watch tree now (created ∷ written ∷ []) w).pending
          ≡ some added)
        × (lookup (◌//◌ dir name) (handle_events add_watch tree now (written ∷ []) w).pending
            ≡ some (if Set.contains (◌//◌ dir name) w.created then added else modified))
  unfolding handle_events handle_event handle_path notify
  create_then_write wd dir name w h n = ground (
    arith,
    h,
    n,
    ==_refl (◌//◌ dir name),
    Set.contains-insert (◌//◌ dir name) (◌//◌ dir name) w.created,
    lookup-insert (◌//◌ dir name) (◌//◌ dir name) added w.pending,
    lookup-insert (◌//◌ dir name) (◌//◌ dir name) modified w.pending,
  )

  -- Every event on an unknown watch, and every event after `IN_IGNORED` on its watch, is dropped.
  unknown_watch :
      (e : Event) (w : Watcher)
      → e.ignored ≡ false
      → lookup e.wd w.watches ≡ none
      → handle_event add_watch tree now e w ≡ w
  unfolding handle_event
  unknown_watch e w i h = ground arith

-- The regular files of a tree, through its directories and not through symbolic links.
unfoldable mutual
  pub files : Text → Entries → List Text
  files dir end = []
  files dir (entry name e es) = files_of (◌//◌ dir name) e ++ files dir es

  pub files_of : Text → Entry → List Text
  files_of path symlink = []
  files_of path regular_file = path ∷ []
  files_of path other = []
  files_of path (directory es) = files path es

contains-append :
    (p : Text) (xs ys : List Text)
    → Set.contains p (xs ++ ys) ≡ (Set.contains p xs || Set.contains p ys)
unfolding Set.contains
contains-append p [] ys = refl
contains-append p (x ∷ xs) ys = ground (arith, contains-append p xs ys)

abbrev Pending : Text → Watcher → Type 0
Pending p w = is_some (lookup p w.pending) ≡ true

-- Listed among `xs`, or pending.
abbrev Seen : Text → List Text → Watcher → Type 0
Seen p xs w = (Set.contains p xs || is_some (lookup p w.pending)) ≡ true

module _ (add_watch : Text → Option ℕ) (now : ℕ)
    (all : (dir : Text) → is_some (add_watch dir) ≡ true) where
  mutual
    unfolding add_entries files notify Set.contains

    add_entries-Seen :
        (es : Entries) (dir p : Text) (w : Watcher)
        → Seen p (files dir es) w
        → Pending p (add_entries add_watch now dir true es w)
    add_entries-Seen end dir p w h = h
    add_entries-Seen (entry name e es) dir p w h =
        add_entries-Seen es dir p (add_entry add_watch now (◌//◌ dir name) true e w) (
          ground (
            arith,
            h,
            contains-append p (files_of (◌//◌ dir name) e) (files dir es),
            add_entry-Seen e (◌//◌ dir name) p w,
          ))

    add_entry-Seen :
        (e : Entry) (path p : Text) (w : Watcher)
        → Seen p (files_of path e) w
        → Pending p (add_entry add_watch now path true e w)
    add_entry-Seen symlink path p w h = h
    add_entry-Seen regular_file path p w h =
        ground (arith, h, lookup-insert p path (noted (lookup path w.pending) added) w.pending)
    add_entry-Seen other path p w h = h
    add_entry-Seen (directory es) path p w h = elim (Option-cases (add_watch path)) [
      | inl n ↦ absurd (ground (arith, n, all path))
      | inr (wd, n) ↦
          ground (
            arith,
            n,
            add_entries-Seen es path p (record w { watches = insert wd path w.watches }) h,
          )
    ]

  -- A directory that appears is walked: if every watch can be set, each regular file below it is
  -- pending afterwards, at any depth, and what was pending still is.
  pub add_watch_tree-pending :
      (dir p : Text) (es : Entries) (w : Watcher)
      → (Set.contains p (files dir es) || is_some (lookup p w.pending)) ≡ true
      → is_some (lookup p (add_watch_tree add_watch now dir true es w).pending) ≡ true
  unfolding add_watch_tree
  add_watch_tree-pending dir p es w h = elim (Option-cases (add_watch dir)) [
    | inl n ↦ absurd (ground (arith, n, all dir))
    | inr (wd, n) ↦
        rw (n, add_watch_tree)
          (add_entries-Seen es dir p (record w { watches = insert wd dir w.watches }) h)
  ]
