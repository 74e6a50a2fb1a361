-- ===== src/FileWatcher/Quiet.antt =====
-- When the pending changes are delivered.
use cloud_node.Base.{
  nat_ord, Text, text_ord, pair_ord, ℕ, ◌+◌, ◌≤◌, ◌<◌, ◌≡◌, ◌⊎◌, true, [], ◌++◌, arith,
}
use cloud_node.FileWatcher.{FileChange, Watcher, notify, flush_if_quiet}

-- Where a callback is set, a flush delivers either nothing, and leaves everything as it was, or all that is pending, each
-- path once and in the order of the paths; and it delivers only when the deadline is reached.
pub flush_if_quiet_lem :
    (now : ℕ) (w : Watcher)
    → w.callback ≡ true
    → ((w.pending ≡ []) × (flush_if_quiet now w ≡ w))
      ⊎ ((now < w.deadline) × (flush_if_quiet now w ≡ w))
      ⊎ ((w.deadline ≤ now)
          × ((flush_if_quiet now w).pending ≡ [])
          × ((flush_if_quiet now w).delivered ≡ w.delivered ++ w.pending))
unfolding flush_if_quiet
flush_if_quiet_lem now w c = ground arith

-- Each new change starts the wait again: until the timeout has gone by since the last of them,
-- nothing is delivered, whatever was pending before.
pub flush_if_quiet-notify :
    (now later : ℕ) (path : Text) (change : FileChange) (w : Watcher)
    → later < now + w.timeout
    → flush_if_quiet later (notify now path change w) ≡ notify now path change w
unfolding flush_if_quiet notify
flush_if_quiet-notify now later path change w h = ground arith
