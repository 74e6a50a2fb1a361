-- ===== src/FileWatcher/Stopping/Ends.antt =====
-- src/FileWatcher.cpp: what becomes of the watcher's thread after `Stop` has woken it.
use cloud_node.Base.{◌≡◌, refl, sym, ap, ◌∙◌, subst, Bool, true, false, some, arith}
use cloud_node.FileWatcher.Stopping.{
  Point, no_thread, top, polling, returned, Watching, idle, request_stop, closed, join, Poll,
  interrupted, failed, events, woke, Tells, next_point, step,
}

is_joined : Point → Bool
is_joined no_thread = true
is_joined returned = true
is_joined _ = false

abbrev Told : Bool → Poll → Type 0
Told woken events = woken ≡ false
Told woken woke = woken ≡ true
Told woken _ = Unit {0}

-- With `m_running` unset and the wake descriptor readable, the thread has returned after two steps.
two_steps-is_joined :
    (p q : Poll) (point : Point)
    → Told true p
    → Told true q
    → is_joined (next_point q false (next_point p false point)) ≡ true
unfolding is_joined
two_steps-is_joined p q no_thread a b = refl
two_steps-is_joined p q returned a b = refl
two_steps-is_joined p q top a b = refl
two_steps-is_joined interrupted q polling a b = refl
two_steps-is_joined failed q polling a b = refl
two_steps-is_joined woke q polling a b = refl
two_steps-is_joined events q polling a b = cc

join-is_joined : (w : Watching) → is_joined w.point ≡ true → join w ≡ some (closed w)
unfolding join is_joined
join-is_joined w h = ground arith

Tells-Told : (w : Watching) (p : Poll) → w.woken ≡ true → Tells w p → Told true p
Tells-Told w interrupted h t = tt
Tells-Told w failed h t = tt
Tells-Told w events h t = sym h ∙ t
Tells-Told w woke h t = refl

-- A stop whose write wakes the thread ends: after two steps of the thread, whatever `poll` yields that it
-- may, the join goes through, and the watcher is as before its first start.
pub request_stop-ends :
    (w : Watching) (p q : Poll)
    → w.running ≡ true
    → Tells (request_stop true w) p
    → Tells (step p (request_stop true w)) q
    → join (step q (step p (request_stop true w))) ≡ some idle
unfolding request_stop step
request_stop-ends w p q h a b =
    let stopped = record w { running = false; woken = true; stopping = true } in
    let e : request_stop true w ≡ stopped = rw h refl in
    let ta : Told true p = Tells-Told stopped p refl (subst (λ v. Tells v p) e a) in
    let tb : Told true q =
      Tells-Told (step p stopped) q refl (subst (λ v. Tells (step p v) q) e b) in
    ap (λ v. join (step q (step p v))) e
    ∙ join-is_joined (step q (step p stopped)) (two_steps-is_joined p q w.point ta tb)
