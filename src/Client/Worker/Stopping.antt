-- ===== src/Client/Worker/Stopping.antt =====
-- The worker thread of a client that is stopped: how many steps it takes to its end, with other threads
-- between the steps.
use cloud_node.Base.{
  if◌then◌else◌, nat_ord, Text, text_ord, pair_ord, ℕ, zero, suc, ◌≤◌, arith, ◌≡◌, refl, sym, subst,
  Bool, true, false, ◌||◌, Option, none, some, List, [], ◌∷◌,
}
use cloud_node.Json.{Json}
use cloud_node.LocalDescription.{Base64}
use cloud_node.Client.Specs.{FileSpec, is_empty}
use cloud_node.Client.State.{exit, Client, Env}
use cloud_node.Client.Sending.{Files}
use cloud_node.Client.Channel.{Rtc}
use cloud_node.Client.Startup.{Options}
use cloud_node.Client.Worker.{
  Task, startup, file, Point, top, awaiting_open, awaiting_answer, running, awaiting_pong, idle,
  pinging, pinged, joining, awaiting_join, all_joined, connecting, connected, unconnected, offering,
  awaiting_peer, sending, sent_to, returned, ended, crashed, with_state, woken, next_task,
  join_rooms, round, channel_ready, after_connect, step,
}
use cloud_node.Client.Worker.Countdown.{Stops, steps_left, none_left, at_most_five}
use cloud_node.Client.Worker.Rounds.{channel_ready-state}
use cloud_node.Client.Worker.Reached.{send_ping-state}

module _ (J : Json) (env : Env) (rtc : Rtc) (base64 : Base64) (paths : Files)
    (options : Options) where
  abbrev moved : Option (Point × Client) → Point × Client → Point × Client
  moved none x = x
  moved (some y) x = y

  -- `n` steps of the worker with no other thread between them; where it waits, it stays. What the
  -- clock and `generateUUID` do at each step is free.
  unfoldable pub advance : (ℕ → Bool) → (ℕ → Text) → ℕ → Point × Client → Point × Client
  advance expired uuid zero x = x
  advance expired uuid (suc n) (p, c) =
      advance expired uuid n
        (moved (step J env rtc base64 paths options (expired n) (uuid n) p c) (p, c))

  -- `n` steps of the worker, each after what other threads do to the client.
  unfoldable pub interleaved :
      (ℕ → Bool) → (ℕ → Text) → (ℕ → Client → Client) → ℕ → Point × Client → Point × Client
  interleaved expired uuid others zero x = x
  interleaved expired uuid others (suc n) (p, c) = interleaved expired uuid others n (
      moved (step J env rtc base64 paths options (expired n) (uuid n) p (others n c))
        (p, others n c))

  -- The client is stopped, and the thread has at most `n` steps to go.
  abbrev Left : ℕ → Point × Client → Type 0
  Left n (p, c) = (c.state ≡ exit) × Stops p × (steps_left p ≤ n)

  module _ (n : ℕ) where
    if-Left :
        (b : Bool) (p q : Point) (c : Client)
        → Left n (p, c)
        → Left n (q, c)
        → Left n (if b then p else q, c)
    if-Left true p q c h g = h
    if-Left false p q c h g = g

    woken-Left :
        (b : Bool) (x y : Point × Client)
        → Left n x
        → Left n (moved (woken J env rtc base64 paths options (b || true) none x) y)
    woken-Left true x y h = h
    woken-Left false x y h = h

    after_connect-Left :
        (specs : List FileSpec) (x : Client × Bool)
        → x.0.state ≡ exit
        → 3 ≤ n
        → Left n (after_connect J env rtc base64 paths options specs x)
    after_connect-Left specs (c, true) e h = (e, tt, h)
    after_connect-Left specs (c, false) e h = (e, tt, omega arith)

    next_task-Left :
        (task : Task) (c : Client)
        → 3 ≤ n
        → Left n (next_task J env rtc base64 paths options task, with_state exit c)
    next_task-Left (startup peer room specs) c h =
        if-Left (is_empty peer) (offering specs) (connecting peer room specs) (with_state exit c)
          (refl, tt, h) (refl, tt, omega arith)
    next_task-Left (file spec specs) c h = (refl, tt, omega arith)

    step-Left :
        (expired : Bool) (uuid : Text) (p : Point) (c : Client)
        → Stops p
        → steps_left p ≤ suc n
        → Left n (
            moved
              (step J env rtc base64 paths options expired uuid p (with_state exit c))
              (p, with_state exit c))
    unfolding step round join_rooms
    step-Left expired uuid top c t h = (refl, tt, omega arith)
    step-Left expired uuid awaiting_open c t h =
        woken-Left c.transport_open (ended, with_state exit c) (awaiting_open, with_state exit c)
          (refl, tt, omega arith)
    step-Left expired uuid awaiting_answer c t h = (refl, tt, omega arith)
    step-Left expired uuid running c t h = (refl, tt, omega arith)
    step-Left expired uuid awaiting_pong c t h = (refl, tt, omega arith)
    step-Left expired uuid idle c t h = (refl, tt, omega arith)
    step-Left expired uuid pinging c t h =
        (send_ping-state J env rtc base64 paths options (with_state exit c), tt, omega arith)
    step-Left expired uuid (pinged true) c t h = (refl, tt, omega arith)
    step-Left expired uuid (pinged false) c t h = (refl, tt, omega arith)
    step-Left expired uuid (joining [] task) c t h = (refl, tt, omega arith)
    step-Left expired uuid (joining (room ∷ rooms) task) c t h = (refl, tt, omega arith)
    step-Left expired uuid (awaiting_join rooms task) c t h = (refl, tt, omega arith)
    step-Left expired uuid (all_joined task) c t h = next_task-Left task c (omega arith)
    step-Left expired uuid (connecting peer room specs) c t h = (refl, tt, omega arith)
    step-Left expired uuid (connected peer room specs) c t h =
        after_connect-Left specs
          (channel_ready J env rtc base64 paths options peer room (with_state exit c))
          (channel_ready-state J env rtc base64 paths options peer room (with_state exit c))
          (omega arith)
    step-Left expired uuid unconnected c t h = (refl, tt, omega arith)
    step-Left expired uuid (offering []) c t h = (refl, tt, omega arith)
    step-Left expired uuid (offering (spec ∷ specs)) c t h = (refl, tt, omega arith)
    step-Left expired uuid (awaiting_peer spec specs) c t h = (refl, tt, omega arith)
    step-Left expired uuid (sending spec specs) c t h = absurd t
    step-Left expired uuid (sent_to true specs) c t h = (refl, tt, omega arith)
    step-Left expired uuid (sent_to false specs) c t h = (refl, tt, omega arith)
    step-Left expired uuid (returned true) c t h = (refl, tt, omega arith)
    step-Left expired uuid (returned false) c t h = (refl, tt, omega arith)
    step-Left expired uuid ended c t h = (refl, tt, omega arith)
    step-Left expired uuid crashed c t h = absurd t

  module _ (expired : ℕ → Bool) (uuid : ℕ → Text) (others : ℕ → Client → Client)
      (keeps : (n : ℕ) (c : Client) → c.state ≡ exit → (others n c).state ≡ exit) where
    abbrev IsOver : Point × Client → Type 0
    IsOver (p, c) = (p ≡ ended) × (c.state ≡ exit)

    interleaved-IsOver :
        (n : ℕ) (p : Point) (c : Client)
        → Left n (p, c)
        → IsOver (interleaved expired uuid others n (p, c))
    unfolding interleaved
    interleaved-IsOver zero p c (e, t, h) = (none_left p t h, e)
    interleaved-IsOver (suc n) p c (e, t, h) =
        let d : Client = others n c in
        let stopped : exit ≡ d.state = sym (keeps n c e) in
        let next = moved (step J env rtc base64 paths options (expired n) (uuid n) p d) (p, d) in
        let left : Left n next =
          subst
            (λ s. Left n (
              moved (step J env rtc base64 paths options (expired n) (uuid n) p (with_state s d))
                (p, with_state s d)))
            stopped (step-Left n (expired n) (uuid n) p d t h) in
        interleaved-IsOver n next.0 next.1 left

    -- A client that is stopped has its worker ended after five steps, and is still stopped then:
    -- from wherever the worker stands, but where it is about to call `SendFileOffer` or an exception
    -- has ended it, whatever the clock and `generateUUID` do, and whatever other threads do to the
    -- client between the steps that leaves it stopped.
    pub stopped-ends :
        (p : Point) (c : Client)
        → Stops p
        → c.state ≡ exit
        → ((interleaved expired uuid others 5 (p, c)).0 ≡ ended)
          × ((interleaved expired uuid others 5 (p, c)).1.state ≡ exit)
    stopped-ends p c h e = interleaved-IsOver 5 p c (e, h, at_most_five p h)
