-- ===== src/PortClient/Ends.antt =====
-- The end of the thread of src/MessagePortClient.cpp, and a second start.
use cloud_node.Base.{
  if◌then◌else◌, nat_ord, Text, text_ord, pair_ord, ℕ, zero, suc, ◌≡◌, refl, subst, Bool, true,
  false, ◌||◌, Option, none, some,
}
use cloud_node.PortClient.{
  Point, absent, making, starting, waiting, closing, delaying, finished, PortClient, start, started,
  of_socket, at_point, is_absent, step_at, step, request_stop, send_message, join,
}

abbrev moved : Option PortClient → PortClient → PortClient
moved none s = s
moved (some t) s = t

-- `n` steps of the thread with nothing between them; where it waits, it stays. Whether a delay is over
-- is free at each step.
unfoldable pub advance : (ℕ → Bool) → ℕ → PortClient → PortClient
advance expired zero s = s
advance expired (suc n) s = advance expired n (moved (step (expired n) s) s)

abbrev pub IsJoined : Option PortClient → Type 0
IsJoined none = ⊥
IsJoined (some t) = (t.point ≡ absent) × (t.is_running ≡ false)

module _ (expired : ℕ → Bool) where
  woken-IsJoined :
      (n : ℕ) (b : Bool) (x y : PortClient)
      → IsJoined (join (advance expired n x))
      → IsJoined (join (advance expired n (moved (if b || true then some x else none) y)))
  woken-IsJoined n true x y h = h
  woken-IsJoined n false x y h = h

  at_point-IsJoined :
      (p : Point) (s : PortClient)
      → IsJoined (join (advance expired 3 (at_point p (request_stop s))))
  unfolding advance step join request_stop
  at_point-IsJoined absent s = (refl, refl)
  at_point-IsJoined making s = (refl, refl)
  at_point-IsJoined starting s =
      woken-IsJoined 1 s.disconnected _ (at_point waiting (of_socket started (request_stop s)))
        (refl, refl)
  at_point-IsJoined waiting s =
      woken-IsJoined 2 s.disconnected _ (at_point waiting (request_stop s)) (refl, refl)
  at_point-IsJoined closing s = (refl, refl)
  at_point-IsJoined delaying s = (refl, refl)
  at_point-IsJoined finished s = (refl, refl)

  -- Wherever the thread is, after a stop is requested three steps of it, with nothing between them and
  -- whether or not a delay is over, let `Stop` join it: `Stop` returns, and the client does not run.
  pub request_stop-IsJoined :
      (s : PortClient) → IsJoined (join (advance expired 3 (request_stop s)))
  unfolding request_stop
  request_stop-IsJoined s = at_point-IsJoined s.point s

  abbrev IsLaunched : PortClient → Type 0
  IsLaunched s = (s.is_running ≡ false) × (is_absent s.point ≡ false)

  moved_if-IsLaunched :
      (b : Bool) (x y : Option PortClient) (s : PortClient)
      → IsLaunched (moved x s)
      → IsLaunched (moved y s)
      → IsLaunched (moved (if b then x else y) s)
  moved_if-IsLaunched true x y s h g = h
  moved_if-IsLaunched false x y s h g = g

  closed-is_absent : (b : Bool) → is_absent (if b then finished else delaying) ≡ false
  closed-is_absent true = refl
  closed-is_absent false = refl

  moved-IsLaunched :
      (p : Point) (b : Bool) (s : PortClient)
      → IsLaunched (at_point p s)
      → IsLaunched (moved (step_at p b (at_point p s)) (at_point p s))
  moved-IsLaunched absent b s h = h
  moved-IsLaunched making b s h =
      moved_if-IsLaunched s.stop_requested _ _ (at_point making s) (h.0, refl) (h.0, refl)
  moved-IsLaunched starting b s h = (h.0, refl)
  moved-IsLaunched waiting b s h =
      moved_if-IsLaunched (s.disconnected || s.stop_requested) _ none (at_point waiting s)
        (h.0, refl) h
  moved-IsLaunched closing b s h = (h.0, closed-is_absent s.stop_requested)
  moved-IsLaunched delaying b s h =
      moved_if-IsLaunched s.stop_requested _ _ (at_point delaying s) (h.0, refl)
        (moved_if-IsLaunched b (some (at_point making s)) none (at_point delaying s) (h.0, refl) h)
  moved-IsLaunched finished b s h = h

  advance-IsLaunched : (n : ℕ) (s : PortClient) → IsLaunched s → IsLaunched (advance expired n s)
  unfolding advance step
  advance-IsLaunched zero s h = h
  advance-IsLaunched (suc n) s h =
      advance-IsLaunched n (moved (step_at s.point (expired n) s) s)
        (moved-IsLaunched s.point (expired n) s h)

  started_again :
      (address : Text) (port : ℕ) (s : PortClient) → IsLaunched s → start address port s ≡ none
  unfolding start
  started_again address port s (r, a) = rw r (rw a refl)

  abbrev IsLaunchedBy : Option (PortClient × Bool) → Type 0
  IsLaunchedBy none = Unit {0}
  IsLaunchedBy (some (t, b)) = IsLaunched t

  start-IsLaunchedBy :
      (address : Text) (port : ℕ) (s : PortClient)
      → s.is_running ≡ false
      → s.point ≡ absent
      → IsLaunchedBy (start address port s)
  unfolding start
  start-IsLaunchedBy address port s r a = rw r (rw a (refl, refl))

  -- The thread once started, a second `Start` before the connection is open ends the program, however
  -- far the thread is: it does not return `false`.
  pub start-again :
      (address : Text) (port : ℕ) (s t : PortClient) (n : ℕ)
      → s.is_running ≡ false
      → s.point ≡ absent
      → start address port s ≡ some (t, true)
      → start address port (advance expired n t) ≡ none
  start-again address port s t n r a e =
      started_again address port (advance expired n t)
        (advance-IsLaunched n t (subst IsLaunchedBy e (start-IsLaunchedBy address port s r a)))

-- A message that waits for the port to run is given up once a stop is requested, and nothing is sent.
request_stop-send_message :
    (takes : Bool) (t : Text) (s : PortClient)
    → send_message takes t (request_stop s) ≡ some (request_stop s, false)
unfolding send_message request_stop
request_stop-send_message takes t s = refl
