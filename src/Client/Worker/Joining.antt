-- ===== src/Client/Worker/Joining.antt =====
-- What `JoinRooms` of src/WebRTCClient.cpp leads to, from its start and from each of its waits.
use cloud_node.Base.{
  if◌then◌else◌, nat_ord, Text, text_ord, pair_ord, ◌≡◌, Bool, true, false, ◌||◌, List, [], ◌∷◌,
  arith,
}
use cloud_node.Json.{Json}
use cloud_node.LocalDescription.{Base64}
use cloud_node.Client.Specs.{is_empty}
use cloud_node.Client.State.{
  ClientState, init, waiting_for_join, joined, run, ping, wait_for_pong, wait_for_file_accept, exit,
  ◌is◌, Client, Env,
}
use cloud_node.Client.Sending.{Files, in_room, join_room}
use cloud_node.Client.Channel.{Rtc}
use cloud_node.Client.Startup.{Options}
use cloud_node.Client.Worker.{
  Task, awaiting_join, returned, is_stopped, with_state, join_rooms, is_settled, after_join,
}
use cloud_node.Client.Worker.Steps.{IsSettled, FitsPair, is_stopped-IsQuiet}
use cloud_node.Client.Worker.Rounds.{if-FitsPair}

if_asked :
    (rooms : List Text) (task : Task) (b : Bool) (c : Client)
    → FitsPair (if b then (awaiting_join rooms task, c) else (returned false, with_state exit c))
if_asked rooms task true c = tt
if_asked rooms task false c = tt

module _ (J : Json) (env : Env) (rtc : Rtc) (base64 : Base64) (paths : Files)
    (options : Options) where
  pub join_rooms-FitsPair :
      (rooms : List Text) (task : Task) (c : Client)
      → IsSettled c.state
      → FitsPair (join_rooms J env rtc base64 paths options rooms task c)
  unfolding join_rooms
  join_rooms-FitsPair [] task c h = h
  join_rooms-FitsPair (room ∷ rooms) task c h =
      let ih = join_rooms-FitsPair rooms task c h in
      let asked-FitsPair : (x : Client × Bool)
          → FitsPair (
              if x.1
              then (awaiting_join rooms task, x.0)
              else (returned false, with_state exit x.0)) =
        λ x. if_asked rooms task x.1 x.0 in
      if-FitsPair (c.state is exit) _ _ (λ e. is_stopped-IsQuiet c.state (ground (arith, e)))
        (λ _.
          if-FitsPair (is_empty room || in_room env room c) _ _ (λ _. ih)
            (λ _.
              asked-FitsPair
                (join_room env J room (record c { room = room; state = waiting_for_join }))))

  pub is_settled-IsSettled :
      (s : ClientState) → is_settled J env rtc base64 paths options s ≡ true → IsSettled s
  is_settled-IsSettled waiting_for_join h = cc
  is_settled-IsSettled joined h = tt
  is_settled-IsSettled init h = tt
  is_settled-IsSettled exit h = tt
  is_settled-IsSettled run h = tt
  is_settled-IsSettled ping h = tt
  is_settled-IsSettled wait_for_pong h = tt
  is_settled-IsSettled wait_for_file_accept h = tt

  pub after_join-FitsPair :
      (rooms : List Text) (task : Task) (c : Client)
      → is_settled J env rtc base64 paths options c.state ≡ true
      → FitsPair (after_join J env rtc base64 paths options rooms task c)
  after_join-FitsPair rooms task c h =
      if-FitsPair (is_stopped c.state) _ _ (λ e. is_stopped-IsQuiet c.state e)
        (λ e. join_rooms-FitsPair rooms task c (is_settled-IsSettled c.state h))
