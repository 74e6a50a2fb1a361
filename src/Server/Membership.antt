-- ===== src/Server/Membership.antt =====
-- Joining, leaving, closing a connection, and the notifications of these.
use cloud_node.Base.{
  if◌then◌else◌, ◌>>=◌, nat_ord, Text, text, text_ord, pair_ord, Option, none, some, List, [], ◌∷◌,
  ◌++◌, map,
}
use cloud_node.Base.Dict.{lookup, insert}
use cloud_node.Json.{Json, Run, done, string_member}
use cloud_node.Rooms.{members, touch, is_member}
use cloud_node.Rooms
use cloud_node.Server.State.{or_stay, Ws, Server, send, or_return}

module _ (J : Json) where
  -- The document of `peer_joined` and `peer_left`.
  unfoldable pub notification : Text → Text → Text → List Text → J.Value
  notification type who room peers = J.add (text "peers") (J.array (map J.string peers)) (
      J.add (text "room") (J.string room)
        (J.add (text "peerId") (J.string who) (J.add (text "type") (J.string type) J.empty)))

  unfoldable pub send_notification : Text → Text → Text → Text → List Text → Server → Server
  send_notification type whom who room peers s = elim (lookup whom s.client_db) [
    | none ↦ s
    | some ws ↦ send ws (J.write (notification type who room peers)) s
  ]

  unfoldable pub send_join_notification : Text → Text → Text → List Text → Server → Server
  unfolding send_notification
  send_join_notification whom who room peers s =
      send_notification (text "peer_joined") whom who room peers s

  unfoldable pub send_leave_notification : Text → Text → Text → List Text → Server → Server
  unfolding send_notification
  send_leave_notification whom who room peers s =
      send_notification (text "peer_left") whom who room peers s

  -- `for (auto u : m_rooms[room])`
  unfoldable pub notify_joined : List Text → Text → Text → List Text → Server → Server
  notify_joined [] who room peers s = s
  notify_joined (u ∷ us) who room peers s =
      notify_joined us who room peers (send_join_notification u who room peers s)

  unfoldable pub notify_left : List Text → Text → Text → List Text → Server → Server
  notify_left [] who room peers s = s
  notify_left (u ∷ us) who room peers s =
      notify_left us who room peers (send_leave_notification u who room peers s)

  -- The part of `OnJoin` behind its checks.
  unfoldable pub enter : Ws → Text → Server → Server
  enter ws room s =
      let peer = ws.x_client_id in
      let (rooms, joined) = Rooms.join peer room s.rooms in
      let t = record s { rooms = rooms; client_db = insert peer ws s.client_db } in
      if joined
      then notify_joined (members room rooms) peer room (members room rooms) t
      else record s { rooms = rooms }

  -- The checks of `OnJoin` and of `OnLeave`.
  unfoldable pub room_request : Option Ws → J.Value → Option (Ws × Text)
  room_request current doc = do
    ws ← current
    room ← string_member J (text "room") doc
    some (ws, room)

  unfoldable pub on_join : Option Ws → J.Value → Server → Run Server
  unfolding enter or_stay room_request
  on_join current doc s =
      done (or_stay (room_request current doc) (λ (ws, room). enter ws room s) s)

  -- `WebRTCServer::Leave`
  unfoldable pub leave : Text → Text → Server → Server
  leave peer room s =
      let rooms = touch room (Rooms.leave peer room s.rooms).0 in
      notify_left (members room rooms) peer room (members room rooms) (record s { rooms = rooms })

  unfoldable pub on_leave : Option Ws → J.Value → Server → Run Server
  unfolding or_stay room_request
  on_leave current doc s =
      done (or_stay (room_request current doc) (λ (ws, room). leave ws.x_client_id room s) s)

  -- The loop of `OnMessageClose` over the rooms that are there when it begins; `Leave` changes the
  -- members of the room at hand, and adds or removes no room.
  unfoldable pub leave_each : List Text → Text → Server → Server
  leave_each [] peer s = s
  leave_each (room ∷ rooms) peer s =
      leave_each rooms peer (if is_member peer room s.rooms then leave peer room s else s)

  unfoldable pub on_message_close : Option Ws → Server → Server
  on_message_close current s = elim current [
    | none ↦ s
    | some ws ↦ leave_each (map (λ (room, _). room) s.rooms) ws.x_client_id s
  ]

  -- `OnMessageOpen` logs.
  unfoldable pub on_message_open : Text → Server → Server
  on_message_open peer s = s

  unfoldable pub pong : Text → Text
  pong peer = text "{\"type\" : \"pong\", \"id\" : \"" ++ (peer ++ text "\"}")

  unfoldable pub on_ping_pong : Option Ws → J.Value → Server → Run Server
  on_ping_pong current doc s =
      done (or_return (do ws ← current; some (send ws (pong ws.x_client_id) s)) s)
