-- ===== src/FileWatcher/Loop.antt =====
-- src/FileWatcher.cpp: `Start`, and the loop of `Run` with what `poll` and `read` yield as a parameter.
use cloud_node.Base.{
  ltb, if◌then◌else◌, nat_ord, Text, text_ord, pair_ord, ℕ, ◌+◌, ◌-◌, ◌≤◌, ◌≡◌, refl, ap, ◌∙◌, Bool,
  true, false, not, ◌&&◌, Option, none, some, List, [], ◌∷◌, ◌++◌, arith,
}
use cloud_node.Base.Dict.{Dict, insert}
use cloud_node.FileWatcher.{
  FileChange, Entries, entry, end, Entry, symlink, directory, regular_file, other, Event, Watcher,
  ◌//◌, flush_if_quiet, add_entries, add_entry, add_watch_tree, handle_events,
}

-- `poll` is interrupted, or fails, or yields whether the wake descriptor is readable, and the events
-- that are read, if there are any.
pub data Polled : Type 0 where
  interrupted failed : Polled
  ready : Bool → Option (List Event) → Polled

-- Whether `Run` goes on or returns.
pub data Round : Type 0 where
  goes_on returns : Watcher → Round

-- `waitMs`, where none is the -1 that waits without end.
unfoldable pub wait_ms : ℕ → Watcher → Option ℕ
wait_ms now w = elim w.pending [ [] ↦ none | p ∷ ps ↦ some (w.deadline - now) ]

some-inj : {a b : ℕ} → some a ≡ some b → a ≡ b
some-inj e = cc

flush_if_quiet-pending :
    (now later k : ℕ) (ps : Dict Text FileChange) (w : Watcher)
    → w.callback ≡ true
    → wait_ms now (record w { pending = ps }) ≡ some k
    → now + k ≤ later
    → flush_if_quiet later (record w { pending = ps })
      ≡ record w { pending = []; delivered = w.delivered ++ ps }
unfolding wait_ms flush_if_quiet
flush_if_quiet-pending now later k [] w c e h = cc
flush_if_quiet-pending now later k (p ∷ ps) w c e h =
    let late : ltb later w.deadline ≡ false = ground (arith, some-inj e, h) in rw (late, c) refl

module _ (add_watch : Text → Option ℕ) where
  -- `Start`, with whether the root is a directory and whether inotify is had: whether the watcher runs,
  -- and the result.
  unfoldable pub start : Bool → Bool → Text → Entries → ℕ → Bool × Watcher → (Bool × Watcher) × Bool
  start is_directory initialized root es now (running, w) =
      if running
      then ((true, w), false)
      else if not (is_directory && initialized)
      then ((false, w), false)
      else (
        (
          true,
          add_watch_tree add_watch now root false es
              (record w { watches = []; created = []; pending = [] }),
        ),
        true,
      )

  module _ (tree : Text → Entries) where
    abbrev pub handled : ℕ → Option (List Event) → Watcher → Watcher
    handled now none w = w
    handled now (some es) w = handle_events add_watch tree now es w

    -- A round of `Run` with the time at the events and at the flush.
    unfoldable pub run_round : Bool → Polled → ℕ → ℕ → Watcher → Round
    run_round false polled now later w = returns w
    run_round true interrupted now later w = goes_on w
    run_round true failed now later w = returns w
    run_round true (ready true es) now later w = returns w
    run_round true (ready false es) now later w = goes_on (flush_if_quiet later (handled now es w))

    -- A poll with changes pending waits no longer than to the deadline: when its time has gone by without an
    -- event, all changes that are pending are delivered, and none is left.
    pub run_round-delivers :
        (now later k : ℕ) (w : Watcher)
        → w.callback ≡ true
        → wait_ms now w ≡ some k
        → now + k ≤ later
        → run_round true (ready false none) later later w
          ≡ goes_on (record w { pending = []; delivered = w.delivered ++ w.pending })
    unfolding run_round
    run_round-delivers now later k w c e h =
        ap goes_on (flush_if_quiet-pending now later k w.pending w c e h)

  mutual
    unfolding add_entries

    add_entries-unreported :
        (es : Entries) (dir : Text) (now : ℕ) (w : Watcher)
        → (add_entries add_watch now dir false es w).pending ≡ w.pending
    add_entries-unreported end dir now w = refl
    add_entries-unreported (entry name e es) dir now w =
        add_entries-unreported es dir now (add_entry add_watch now (◌//◌ dir name) false e w)
        ∙ add_entry-unreported e (◌//◌ dir name) now w

    add_entry-unreported :
        (e : Entry) (path : Text) (now : ℕ) (w : Watcher)
        → (add_entry add_watch now path false e w).pending ≡ w.pending
    add_entry-unreported symlink path now w = refl
    add_entry-unreported regular_file path now w = refl
    add_entry-unreported other path now w = refl
    add_entry-unreported (directory es) path now w =
        by_watch (add_watch path) (λ v. add_entries-unreported es path now v)
      where
        by_watch :
            (o : Option ℕ)
            → ((v : Watcher) → (add_entries add_watch now path false es v).pending ≡ v.pending)
            → (elim o as (λ _. Watcher) [
              | none ↦ w
              | some wd ↦
                  add_entries add_watch now path false es
                    (record w { watches = insert wd path w.watches })
            ]).pending
              ≡ w.pending
        by_watch none ih = refl
        by_watch (some wd) ih = ih (record w { watches = insert wd path w.watches })

  -- A start that succeeds leaves nothing pending: the files that are there already are not reported, at
  -- any depth.
  pub start-unreported :
      (root : Text) (es : Entries) (now : ℕ) (w : Watcher)
      → (start true true root es now (false, w)).0.1.pending ≡ []
  unfolding start add_watch_tree
  start-unreported root es now w = by_watch (add_watch root)
    where
      by_watch :
          (o : Option ℕ)
          → (elim o as (λ _. Watcher) [
            | none ↦ record w { watches = []; created = []; pending = [] }
            | some wd ↦
                add_entries add_watch now root false es
                  (record w { watches = insert wd root []; created = []; pending = [] })
          ]).pending
            ≡ []
      by_watch none = refl
      by_watch (some wd) =
          add_entries-unreported es root now
            (record w { watches = insert wd root []; created = []; pending = [] })
