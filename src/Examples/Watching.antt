-- ===== src/Examples/Watching.antt =====
-- Changes of a directory, the queue between threads and the stop token.
use cloud_node.Base.{
  is_some, length, nat_ord, Text, text, text_cmp, text_ord, pair_ord, ℕ, ◌+◌, ◌≡◌, refl, true,
  Option, some, List, [], ◌∷◌,
}
use cloud_node.Base.Dict.{lookup}
use cloud_node.Base.Set
use cloud_node.FileWatcher.{added, removed, Entry, Entries, Watcher, add_watch_tree}
use cloud_node.FileWatcher.Events.{files, add_watch_tree-pending}
use cloud_node.StopToken.{StopToken}
use cloud_node.Queue.{add_item, get_item, get_size}
use cloud_node.Queue.Order.{Reached, Reached-fifo}

abbrev watcher : Watcher
watcher = record {
  pending = [];
  deadline = 0;
  timeout = 10;
  watches = (1, text "d") ∷ [];
  created = [];
  callback = true;
  delivered = [];
}

-- The watcher with two changes pending.
abbrev busy : Watcher
busy = record watcher { pending = (text "a", added) ∷ (text "b", removed) ∷ []; deadline = 13 }

abbrev watch : Text → Option ℕ
watch dir = some 2

abbrev tree : Entries
tree =
    Entries.entry (text "s")
      (Entry.directory (Entries.entry (text "f") Entry.regular_file Entries.end)) Entries.end

add_watch_tree-pending_example :
    is_some (lookup (text "e/s/f") (add_watch_tree watch 5 (text "e") true tree watcher).pending)
    ≡ true
unfolding files Set.contains text_cmp lookup
add_watch_tree-pending_example =
    add_watch_tree-pending watch 5 (λ _. refl) (text "e") (text "e/s/f") tree watcher refl

-- A number that was added to a new queue and then got.
reached : Reached {T = ℕ} [] (5 ∷ []) (5 ∷ [])
unfolding add_item get_item
reached =
    Reached.gets (5 ∷ []) (5 ∷ []) [] [] 5 refl (Reached.adds [] [] [] (some 5) Reached.created)

Reached-fifo_example :
    (◌≡◌ {A = List ℕ} (5 ∷ []) (5 ∷ []))
    × (get_size {T = ℕ} [] + length {A = ℕ} (5 ∷ []) ≡ length {A = ℕ} (5 ∷ []))
Reached-fifo_example = Reached-fifo reached
