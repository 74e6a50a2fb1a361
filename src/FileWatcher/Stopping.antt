-- ===== src/FileWatcher/Stopping.antt =====
-- src/FileWatcher.cpp: the watcher's thread and its descriptors, from `Start` to the end of `Stop`. What
-- the thread does with the events is in Loop.
pub mod Ends
use cloud_node.Base.{
  if◌then◌else◌, nat_ord, text_ord, pair_ord, ◌≡◌, refl, ◌∙◌, subst, Bool, true, false, not, ◌&&◌,
  ◌||◌, Option, none, some, arith,
}

-- Where the thread is: at `while (m_running)`, in `poll`, or returned and not joined; or there is none.
pub data Point : Type 0 where
  no_thread top polling returned : Point

-- `m_running`, the two descriptors that are open or -1, whether the wake descriptor is readable, the
-- thread, and whether a `Stop` is on its way.
pub record Watching : Type 0 where
  pub running : Bool
  pub inotify : Bool
  pub wake : Bool
  pub woken : Bool
  pub point : Point
  pub stopping : Bool

abbrev pub idle : Watching
idle = record {
  running = false;
  inotify = false;
  wake = false;
  woken = false;
  point = no_thread;
  stopping = false;
}

-- `Start`, with whether the root is a directory, and whether each descriptor is had.
unfoldable pub start : Bool → Bool → Bool → Watching → Watching × Bool
start is_directory inotify wake w =
    if w.running
    then (w, false)
    else if not is_directory
    then (w, false)
    else if not (inotify && wake)
    then (record w { inotify = false; wake = false }, false)
    else (
      record w { running = true; inotify = true; wake = true; woken = false; point = top },
      true,
    )

-- `Stop` up to the join, with whether the write wakes the thread.
unfoldable pub request_stop : Bool → Watching → Watching
request_stop writes w =
    if w.running then record w { running = false; woken = writes; stopping = true } else w

abbrev pub closed : Watching → Watching
closed w = record w {
  inotify = false;
  wake = false;
  woken = false;
  point = no_thread;
  stopping = false;
}

-- The join, where the thread has returned, and the rest of `Stop`; none while it waits.
unfoldable pub join : Watching → Option Watching
join w = elim w.point [ no_thread ↦ some (closed w) | returned ↦ some (closed w) | _ ↦ none ]

-- What `poll` yields: an interruption, an error, or what is readable.
pub data Poll : Type 0 where
  interrupted failed events woke : Poll

-- `poll` tells that the wake descriptor is readable exactly when it is.
abbrev pub Tells : Watching → Poll → Type 0
Tells w events = w.woken ≡ false
Tells w woke = w.woken ≡ true
Tells w _ = Unit {0}

abbrev pub after_poll : Poll → Point
after_poll interrupted = top
after_poll failed = returned
after_poll events = top
after_poll woke = returned

abbrev pub next_point : Poll → Bool → Point → Point
next_point polled running no_thread = no_thread
next_point polled running top = if running then polling else returned
next_point polled running polling = after_poll polled
next_point polled running returned = returned

-- A step of the thread.
unfoldable pub step : Poll → Watching → Watching
step polled w = record w { point = next_point polled w.running w.point }

-- The calls, which come from one thread, and the steps of the watcher's thread between them.
pub data Reached : Watching → Type 0 where
  fresh : Reached idle
  starts :
      (is_directory inotify wake : Bool) {w : Watching}
      → Reached w
      → w.stopping ≡ false
      → Reached (start is_directory inotify wake w).0
  stops :
      (writes : Bool) {w : Watching}
      → Reached w
      → w.stopping ≡ false
      → Reached (request_stop writes w)
  joins : {w v : Watching} → Reached w → w.stopping ≡ true → join w ≡ some v → Reached v
  steps : (polled : Poll) {w : Watching} → Reached w → Tells w polled → Reached (step polled w)

abbrev pub is_thread : Point → Bool
is_thread no_thread = false
is_thread _ = true

abbrev pub is_alive : Point → Bool
is_alive top = true
is_alive polling = true
is_alive _ = false

pub record IsGuarded (w : Watching) : Type 0 where
  -- The descriptors are open together, and exactly while the watcher runs or is being stopped, and then
  -- there is a thread to join.
  pub inotify : w.inotify ≡ (w.running || w.stopping)
  pub wake : w.wake ≡ (w.running || w.stopping)
  pub joinable : is_thread w.point ≡ (w.running || w.stopping)
  pub not_both : (w.running && w.stopping) ≡ false

join-closed : (w : Watching) {v : Watching} → join w ≡ some v → closed w ≡ v
unfolding join
join-closed w e = by_point w.point e
  where
    by_point :
        (p : Point) {v : Watching}
        → (elim p as (λ _. Option Watching) [
          | no_thread ↦ some (closed w)
          | returned ↦ some (closed w)
          | _ ↦ none
        ])
          ≡ some v
        → closed w ≡ v
    by_point no_thread e = cc
    by_point returned e = cc
    by_point top e = cc
    by_point polling e = cc

is_thread-next_point :
    (polled : Poll) (running : Bool) (p : Point)
    → is_thread (next_point polled running p) ≡ is_thread p
is_thread-next_point polled running no_thread = refl
is_thread-next_point polled true top = refl
is_thread-next_point polled false top = refl
is_thread-next_point interrupted running polling = refl
is_thread-next_point failed running polling = refl
is_thread-next_point events running polling = refl
is_thread-next_point woke running polling = refl
is_thread-next_point polled running returned = refl

-- Whatever is called, and whatever the thread does in between: both descriptors are open exactly while
-- the watcher runs or is being stopped, and so there is a thread exactly then: it never has a descriptor
-- that is closed, none is left open, and no thread is lost.
pub Reached-IsGuarded : {w : Watching} → Reached w → IsGuarded w
unfolding start request_stop join step
Reached-IsGuarded fresh = record { inotify = refl; wake = refl; joinable = refl; not_both = refl }
Reached-IsGuarded (starts d i k {w} r s) =
    let g = Reached-IsGuarded r in
    record {
      inotify = ground (arith, g.inotify, s);
      wake = ground (arith, g.wake, s);
      joinable = ground (arith, g.joinable, s);
      not_both = ground (arith, g.not_both, s);
    }
Reached-IsGuarded (stops b {w} r s) =
    let g = Reached-IsGuarded r in
    record {
      inotify = ground (arith, g.inotify, s);
      wake = ground (arith, g.wake, s);
      joinable = ground (arith, g.joinable, s);
      not_both = ground (arith, g.not_both, s);
    }
Reached-IsGuarded (joins {w} {v} r s e) =
    let g = Reached-IsGuarded r in
    let off : w.running ≡ false = ground (arith, g.not_both, s) in
    subst IsGuarded (join-closed w e) (record {
      inotify = rw off refl;
      wake = rw off refl;
      joinable = rw off refl;
      not_both = rw off refl;
    })
Reached-IsGuarded (steps p {w} r t) =
    let g = Reached-IsGuarded r in
    record {
      inotify = g.inotify;
      wake = g.wake;
      joinable = is_thread-next_point p w.running w.point ∙ g.joinable;
      not_both = g.not_both;
    }
