-- ===== src/Client/Worker/Reached.antt =====
-- Every state that the worker and the other threads lead to.
use cloud_node.Base.{
  if◌then◌else◌, length, ◌==◌, nat_ord, Text, text_ord, pair_ord, ◌≡◌, refl, sym, subst, Bool, true,
  false, not, ◌&&◌, ◌||◌, Option, none, some, List, [], ◌∷◌, arith,
}
use cloud_node.Json.{Json, done}
use cloud_node.Rooms.{is_member}
use cloud_node.LocalDescription.{Base64}
use cloud_node.Client.Specs.{FileSpec, is_empty}
use cloud_node.Client.State.{
  ClientState, init, run, ping, wait_for_pong, wait_for_file_accept, exit, ◌is◌, Client, Env,
}
use cloud_node.Client.Sending.{Files, send_ping, offered}
use cloud_node.Client.Channel.{Rtc}
use cloud_node.Client.Callbacks.{Callback, call}
use cloud_node.Client.Callbacks.Changes.{call-Change}
use cloud_node.Client.Startup.{Options}
use cloud_node.Client.Worker.{
  Task, startup, file, Point, top, awaiting_open, awaiting_answer, running, awaiting_pong, idle,
  pinging, pinged, joining, awaiting_join, all_joined, connecting, connected, unconnected, offering,
  awaiting_peer, sending, sent_to, returned, ended, crashed, is_stopped, with_state, start_up,
  round, late, is_settled, after_join, next_task, channel_ready, stop_unless, step, is_open,
}
use cloud_node.Client.Worker.Steps.{
  IsQuiet, IsSettled, Fits, FitsPair, is_stopped-IsQuiet, Fits-Change,
}
use cloud_node.Client.Worker.Joining.{join_rooms-FitsPair, after_join-FitsPair}
use cloud_node.Client.Worker.Rounds.{
  FitsNext, if-FitsPair, start_up-FitsPair, round-FitsPair, woken-FitsNext, late-FitsNext,
  channel_ready-state, after_connect-FitsPair, after_channel-FitsPair, stop_unless-IsSettled,
  after_offer-FitsPair, next_file-FitsPair,
}

module _ (J : Json) (env : Env) (rtc : Rtc) (base64 : Base64) (paths : Files)
    (options : Options) where
  if_stopped-FitsPair :
      (p : Point) (c : Client)
      → Fits p c.state
      → FitsPair (if is_stopped c.state then (returned false, c) else (p, c))
  if_stopped-FitsPair p c h =
      if-FitsPair (is_stopped c.state) (returned false, c) (p, c)
        (λ e. is_stopped-IsQuiet c.state e) (λ _. h)

  if_named-Fits :
      (b : Bool) (peer room : Text) (specs : List FileSpec) (s : ClientState)
      → IsSettled s
      → Fits (if b then offering specs else connecting peer room specs) s
  if_named-Fits true peer room specs s h = h
  if_named-Fits false peer room specs s h = h

  if-IsQuiet :
      (b : Bool) (x y : Client)
      → IsQuiet x.state
      → IsQuiet y.state
      → IsQuiet (if b then x else y).state
  if-IsQuiet true x y f g = f
  if-IsQuiet false x y f g = g

  pub send_ping-state : (c : Client) → (send_ping env c).0.state ≡ c.state
  unfolding send_ping
  send_ping-state c = ground arith

  stop_false-IsQuiet :
      (c : Client)
      → IsSettled c.state
      → IsQuiet (stop_unless J env rtc base64 paths options false c).state
  stop_false-IsQuiet c h = by_stopped (is_stopped c.state) refl
    where
      by_stopped :
          (b : Bool)
          → is_stopped c.state ≡ b
          → IsQuiet (if not b then with_state exit c else c).state
      by_stopped true e = is_stopped-IsQuiet c.state e
      by_stopped false e = tt

  next_task-FitsPair :
      (task : Task) (c : Client)
      → IsSettled c.state
      → FitsPair (next_task J env rtc base64 paths options task, c)
  next_task-FitsPair (startup peer room specs) c h =
      if_named-Fits (is_empty peer) peer room specs c.state h
  next_task-FitsPair (file spec specs) c h = h

  step-FitsNext :
      (expired : Bool) (uuid : Text) (p : Point) (c : Client)
      → Fits p c.state
      → FitsNext (step J env rtc base64 paths options expired uuid p c)
  unfolding step
  step-FitsNext expired uuid top c h = round-FitsPair J env rtc base64 paths options c h
  step-FitsNext expired uuid awaiting_open c h =
      woken-FitsNext J env rtc base64 paths options (is_open J env rtc base64 paths options c) none
        (if c.state is exit
          then round J env rtc base64 paths options c
          else start_up J env rtc base64 paths options c)
        (λ _.
          if-FitsPair (c.state is exit) (round J env rtc base64 paths options c)
            (start_up J env rtc base64 paths options c)
            (λ _. round-FitsPair J env rtc base64 paths options c h)
            (λ _. start_up-FitsPair J env rtc base64 paths options c h))
        (λ _. tt)
  step-FitsNext expired uuid awaiting_answer c h =
      woken-FitsNext J env rtc base64 paths options (not (c.state is wait_for_file_accept)) none
        (round J env rtc base64 paths options c)
        (λ _. round-FitsPair J env rtc base64 paths options c h) (λ _. tt)
  step-FitsNext expired uuid running c h =
      woken-FitsNext J env rtc base64 paths options
        (not (c.state is run) || not (length c.queued_files == 0))
        (late J env rtc base64 paths options expired
          (round J env rtc base64 paths options (with_state ping c)))
        (round J env rtc base64 paths options c)
        (λ _. round-FitsPair J env rtc base64 paths options c h)
        (λ _.
          late-FitsNext J env rtc base64 paths options expired
            (round J env rtc base64 paths options (with_state ping c))
            (round-FitsPair J env rtc base64 paths options (with_state ping c) tt))
  step-FitsNext expired uuid awaiting_pong c h =
      woken-FitsNext J env rtc base64 paths options (not (c.state is wait_for_pong))
        (late J env rtc base64 paths options expired
          (round J env rtc base64 paths options (with_state exit c)))
        (round J env rtc base64 paths options c)
        (λ _. round-FitsPair J env rtc base64 paths options c h)
        (λ _.
          late-FitsNext J env rtc base64 paths options expired
            (round J env rtc base64 paths options (with_state exit c))
            (round-FitsPair J env rtc base64 paths options (with_state exit c) tt))
  step-FitsNext expired uuid idle c h = absurd h
  step-FitsNext expired uuid pinging c h = subst IsQuiet (sym (send_ping-state c)) h
  step-FitsNext expired uuid (pinged sent) c h =
      round-FitsPair J env rtc base64 paths options
        (if not sent && (c.state is wait_for_pong) then with_state exit c else c)
        (if-IsQuiet (not sent && (c.state is wait_for_pong)) (with_state exit c) c tt h)
  step-FitsNext expired uuid (joining rooms task) c h =
      join_rooms-FitsPair J env rtc base64 paths options rooms task c h
  step-FitsNext expired uuid (awaiting_join rooms task) c h =
      woken-FitsNext J env rtc base64 paths options
        (is_settled J env rtc base64 paths options c.state)
        (late J env rtc base64 paths options expired (returned false, with_state exit c))
        (after_join J env rtc base64 paths options rooms task c)
        (λ e. after_join-FitsPair J env rtc base64 paths options rooms task c e)
        (λ _.
          late-FitsNext J env rtc base64 paths options expired (returned false, with_state exit c)
            tt)
  step-FitsNext expired uuid (all_joined task) c h = next_task-FitsPair task c h
  step-FitsNext expired uuid (connecting peer room specs) c h =
      woken-FitsNext J env rtc base64 paths options
        (is_stopped c.state || is_member peer room c.rooms) none
        (if is_stopped c.state then (returned false, c) else (connected peer room specs, c))
        (λ _. if_stopped-FitsPair (connected peer room specs) c h) (λ _. tt)
  step-FitsNext expired uuid (connected peer room specs) c h =
      after_connect-FitsPair J env rtc base64 paths options specs
        (channel_ready J env rtc base64 paths options peer room c)
        (subst IsSettled (sym (channel_ready-state J env rtc base64 paths options peer room c)) h)
  step-FitsNext expired uuid unconnected c h = stop_false-IsQuiet c h
  step-FitsNext expired uuid (offering []) c h = h
  step-FitsNext expired uuid (offering (spec ∷ specs)) c h = h
  step-FitsNext expired uuid (awaiting_peer spec specs) c h =
      woken-FitsNext J env rtc base64 paths options
        (is_stopped c.state || is_member spec.peer spec.room c.rooms)
        (late J env rtc base64 paths options expired (returned false, with_state exit c))
        (if is_stopped c.state then (returned false, c) else (sending spec specs, c))
        (λ _. if_stopped-FitsPair (sending spec specs) c h)
        (λ _.
          late-FitsNext J env rtc base64 paths options expired (returned false, with_state exit c)
            tt)
  step-FitsNext expired uuid (sending spec specs) c h =
      after_channel-FitsPair J env rtc base64 paths options uuid spec specs
        (channel_ready J env rtc base64 paths options spec.peer spec.room c)
        (subst IsSettled
          (sym (channel_ready-state J env rtc base64 paths options spec.peer spec.room c)) h)
  step-FitsNext expired uuid (sent_to ready specs) c h =
      next_file-FitsPair J env rtc base64 paths options specs
        (stop_unless J env rtc base64 paths options ready c)
        (stop_unless-IsSettled J env rtc base64 paths options ready c h)
  step-FitsNext expired uuid (returned offered) c h =
      after_offer-FitsPair J env rtc base64 paths options offered c h
  step-FitsNext expired uuid ended c h = tt
  step-FitsNext expired uuid crashed c h = tt

  FitsNext-FitsPair :
      (o : Option (Point × Client)) {x : Point × Client} → FitsNext o → o ≡ some x → FitsPair x
  FitsNext-FitsPair o h e = subst FitsNext e h

  -- Where the worker and the client can be: the worker starts at the head of its loop, and its steps
  -- and what other threads do come in any order.
  pub data Reached : Point → Client → Type 0 where
    started : (c : Client) → c.state ≡ init → Reached top c
    works :
        (expired : Bool) (uuid : Text) (p : Point) (c : Client) {q : Point} {d : Client}
        → Reached p c
        → step J env rtc base64 paths options expired uuid p c ≡ some (q, d)
        → Reached q d
    calls :
        (b : Callback) (c : Client) {p : Point} {d : Client}
        → Reached p c
        → call J env base64 b c ≡ done d
        → Reached p d

  -- Wherever the worker is reached, whatever other threads did between its steps, the state fits
  -- where the worker stands: nobody waits for a join but where the worker itself waits for one, no
  -- join is left over at the loop of `StartClient`, and the last wait of that loop is not reached.
  pub Reached-Fits : {p : Point} {c : Client} → Reached p c → Fits p c.state
  Reached-Fits (started c e) = subst IsQuiet (sym e) tt
  Reached-Fits (works expired uuid p c r e) =
      FitsNext-FitsPair (step J env rtc base64 paths options expired uuid p c)
        (step-FitsNext expired uuid p c (Reached-Fits r)) e
  Reached-Fits (calls b c {p} {d} r e) =
      Fits-Change p c.state d.state (call-Change J env base64 b c e) (Reached-Fits r)
