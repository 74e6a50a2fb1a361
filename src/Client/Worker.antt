-- ===== src/Client/Worker.antt =====
-- src/WebRTCClient.cpp: the worker thread: `StartClient`, `JoinRooms`, `ConnectPeer` and `OfferFiles`.
-- One step is what the thread does between two places where it does not hold the state's mutex, so
-- that callbacks come in between steps.
pub mod Steps
pub mod Rounds
pub mod Joining
pub mod Reached
pub mod Countdown
pub mod Stopping
pub mod Spinning
pub mod Troubles
use cloud_node.Base.{
  if◌then◌else◌, is_some, length, ◌==◌, nat_ord, Text, text_ord, pair_ord, Bool, true, false, not,
  ◌&&◌, ◌||◌, Option, none, some, List, [], ◌∷◌,
}
use cloud_node.Base.Dict.{lookup}
use cloud_node.Json.{Json}
use cloud_node.Rooms.{is_member}
use cloud_node.LocalDescription.{Base64}
use cloud_node.Client.Specs.{FileSpec, is_empty}
use cloud_node.Client.Startup.{
  Options, Parsed, files, malformed, throws, or_empty_text, startup_files, startup_rooms,
}
use cloud_node.Client.State.{
  ClientState, init, waiting_for_join, joined, run, ping, wait_for_pong, wait_for_file_accept, exit,
  ◌is◌, Client, Env,
}
use cloud_node.Client.Sending.{Files, in_room, join_room, send_ping, send_file_offer}
use cloud_node.Client.Channel.{Rtc, make_data_channel}

-- What waits for `JoinRooms` to return: the startup, with the peer and the room of `--peer` and the
-- files, or one file of `OfferFiles` with those behind it.
pub data Task : Type 0 where
  startup : Text → Text → List FileSpec → Task
  file : FileSpec → List FileSpec → Task

pub data Point : Type 0 where
  -- The head of the loop of `StartClient`
  top : Point
  -- The waits of `StartClient`, one for each state
  awaiting_open awaiting_answer running awaiting_pong idle : Point
  -- `SendPing`, and the lock after it
  pinging : Point
  pinged : Bool → Point
  -- `JoinRooms`, its wait with the rooms that are left, and its return of `true`
  joining : List Text → Task → Point
  awaiting_join : List Text → Task → Point
  all_joined : Task → Point
  -- `ConnectPeer`, behind its wait, and at its second lock
  connecting : Text → Text → List FileSpec → Point
  connected : Text → Text → List FileSpec → Point
  unconnected : Point
  -- `OfferFiles` at a round, at its wait, without the lock, and at the lock after it
  offering : List FileSpec → Point
  awaiting_peer : FileSpec → List FileSpec → Point
  sending : FileSpec → List FileSpec → Point
  sent_to : Bool → List FileSpec → Point
  -- `lock.lock()` of `StartClient`, with `offered`
  returned : Bool → Point
  -- The thread's end, and its end by an exception that nothing catches
  ended : Point
  crashed : Point

abbrev pub is_stopped : ClientState → Bool
is_stopped state = state is exit || state is init

abbrev pub with_state : ClientState → Client → Client
with_state state c = record c { state = state }

module _ (J : Json) (env : Env) (rtc : Rtc) (base64 : Base64) (paths : Files)
    (options : Options) where
  abbrev pub begun : Parsed → Client → Point × Client
  begun (files specs) c = (
    joining (startup_rooms options specs)
        (startup (or_empty_text options.peer) (or_empty_text options.room) specs),
    c,
  )
  begun malformed c = (ended, with_state exit c)
  begun throws c = (crashed, c)

  -- The steps of the startup, behind the wait for the transport.
  unfoldable pub start_up : Client → Point × Client
  unfolding startup_files startup_rooms
  start_up c = begun (startup_files options) c

  abbrev pub is_open : Client → Bool
  is_open c = c.transport_open || c.state is exit

  abbrev pub run_round : List FileSpec → Client → Point × Client
  run_round [] c = (running, c)
  run_round (spec ∷ specs) c = (offering (spec ∷ specs), record c { queued_files = [] })

  -- A round of the loop, with the lock: up to a wait that has to wait, or the lock's release.
  abbrev pub round_of : ClientState → Client → Point × Client
  round_of exit c = (ended, c)
  round_of init c = if c.transport_open then start_up c else (awaiting_open, c)
  round_of wait_for_file_accept c = (awaiting_answer, c)
  round_of run c = run_round c.queued_files c
  round_of ping c = (pinging, with_state wait_for_pong c)
  round_of wait_for_pong c = (awaiting_pong, c)
  round_of joined c = (top, c)
  round_of waiting_for_join c = (idle, c)

  unfoldable pub round : Client → Point × Client
  unfolding start_up
  round c = round_of c.state c

  -- The loop of `JoinRooms`, with the lock, up to its wait or its return.
  unfoldable pub join_rooms : List Text → Task → Client → Point × Client
  join_rooms [] task c = (all_joined task, c)
  join_rooms (room ∷ rooms) task c =
      let rest = join_rooms rooms task c in
      let (asked, sent) =
        join_room env J room (record c { room = room; state = waiting_for_join }) in
      if c.state is exit
      then (returned false, c)
      else if is_empty room || in_room env room c
      then rest
      else if sent
      then (awaiting_join rooms task, asked)
      else (returned false, with_state exit asked)

  abbrev pub is_settled : ClientState → Bool
  is_settled state = state is joined || (state is init || state is exit)

  -- What a wait does where its predicate holds, and where its time is up.
  abbrev pub woken : Bool → Option (Point × Client) → Point × Client → Option (Point × Client)
  woken holds late next = if holds then some next else late

  abbrev pub late : Bool → Point × Client → Option (Point × Client)
  late expired next = if expired then some next else none

  abbrev pub after_join : List Text → Task → Client → Point × Client
  after_join rooms task c =
      if is_stopped c.state then (returned false, c) else join_rooms rooms task c

  abbrev pub next_task : Task → Point
  next_task (startup peer room specs) =
      if is_empty peer then offering specs else connecting peer room specs
  next_task (file spec specs) = awaiting_peer spec specs

  abbrev pub has_channel : Text → Text → Client → Bool
  has_channel peer room c = is_some (lookup (peer, room) c.data_channels)

  -- `hasChannel || MakeDataChannel(peer, room)`
  abbrev pub channel_ready : Text → Text → Client → Client × Bool
  channel_ready peer room c =
      if has_channel peer room c then (c, true) else make_data_channel env rtc base64 (peer, room) c

  abbrev pub after_connect : List FileSpec → Client × Bool → Point × Client
  after_connect specs (c, true) = (offering specs, c)
  after_connect specs (c, false) = (unconnected, c)

  -- `SendFileOffer`, whose result is not looked at
  abbrev pub after_channel : Text → FileSpec → List FileSpec → Client × Bool → Point × Client
  after_channel uuid spec specs (c, true) =
      (sent_to true specs, (send_file_offer env paths uuid spec.room spec.peer spec.path c).0)
  after_channel uuid spec specs (c, false) = (sent_to false specs, c)

  abbrev pub stop_unless : Bool → Client → Client
  stop_unless ready c = if not ready && not (is_stopped c.state) then with_state exit c else c

  abbrev pub next_file : List FileSpec → Client → Point × Client
  next_file specs c = if is_stopped c.state then (returned false, c) else (offering specs, c)

  abbrev pub after_offer : Bool → Client → Point × Client
  after_offer offered c =
      if not offered || is_stopped c.state
      then round c
      else if c.state is wait_for_file_accept
      then round c
      else round (with_state run c)

  -- A step: `expired` says whether the time of a timed wait is up, and `uuid` is what `generateUUID`
  -- yields. Where a wait goes on there is none.
  unfoldable pub step : Bool → Text → Point → Client → Option (Point × Client)
  unfolding round join_rooms
  step expired uuid top c = some (round c)
  step expired uuid awaiting_open c =
      woken (is_open c) none (if c.state is exit then round c else start_up c)
  step expired uuid awaiting_answer c = woken (not (c.state is wait_for_file_accept)) none (round c)
  step expired uuid running c =
      woken (not (c.state is run) || not (length c.queued_files == 0))
        (late expired (round (with_state ping c))) (round c)
  step expired uuid awaiting_pong c =
      woken (not (c.state is wait_for_pong)) (late expired (round (with_state exit c))) (round c)
  step expired uuid idle c =
      woken (not (c.state is waiting_for_join || c.state is wait_for_file_accept)) none (round c)
  step expired uuid pinging c = let (d, sent) = send_ping env c in some (pinged sent, d)
  step expired uuid (pinged sent) c =
      some (round (if not sent && (c.state is wait_for_pong) then with_state exit c else c))
  step expired uuid (joining rooms task) c = some (join_rooms rooms task c)
  step expired uuid (awaiting_join rooms task) c =
      woken (is_settled c.state) (late expired (returned false, with_state exit c))
        (after_join rooms task c)
  step expired uuid (all_joined task) c = some (next_task task, c)
  step expired uuid (connecting peer room specs) c =
      woken (is_stopped c.state || is_member peer room c.rooms) none
        (if is_stopped c.state then (returned false, c) else (connected peer room specs, c))
  step expired uuid (connected peer room specs) c =
      some (after_connect specs (channel_ready peer room c))
  step expired uuid unconnected c = some (returned false, stop_unless false c)
  step expired uuid (offering []) c = some (returned true, c)
  step expired uuid (offering (spec ∷ specs)) c =
      some (joining (spec.room ∷ []) (file spec specs), c)
  step expired uuid (awaiting_peer spec specs) c =
      woken (is_stopped c.state || is_member spec.peer spec.room c.rooms)
        (late expired (returned false, with_state exit c))
        (if is_stopped c.state then (returned false, c) else (sending spec specs, c))
  step expired uuid (sending spec specs) c =
      some (after_channel uuid spec specs (channel_ready spec.peer spec.room c))
  step expired uuid (sent_to ready specs) c = some (next_file specs (stop_unless ready c))
  step expired uuid (returned offered) c = some (after_offer offered c)
  step expired uuid ended c = none
  step expired uuid crashed c = none
