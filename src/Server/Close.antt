-- ===== src/Server/Close.antt =====
-- A closed connection: its peer leaves every room, and its socket stays on file.
use cloud_node.Base.{
  is_some, ◌==◌, ==_iff, nat_ord, Text, text, text_ord, pair_ord, ◌≡◌, refl, not, ◌&&◌, some, List,
  [], ◌∷◌, map, arith,
}
use cloud_node.Base.Dict.{lookup}
use cloud_node.Base.Set
use cloud_node.Json.{Json, done, string_member}
use cloud_node.Rooms.{Rooms, members, is_member}
use cloud_node.Rooms.Laws.{leave-is_member, members-touch}
use cloud_node.Server.State.{Ws, Server, send, rewritten}
use cloud_node.Server.Membership.{leave, leave_each, on_message_close}
use cloud_node.Server.Relay.{on_answer}
use cloud_node.Server.Consistency.{notify_left-SameTables}

module _ (J : Json) where
  leave-is_member_lem :
      (p r peer room : Text) (s : Server)
      → is_member p r (leave J peer room s).rooms
        ≡ (not (p == peer && r == room) && is_member p r s.rooms)
  unfolding leave
  leave-is_member_lem p r peer room s =
      rw ((notify_left-SameTables J _ peer room _ _).rooms, members-touch)
        (leave-is_member p r peer room s.rooms).0

  leave-client_db : (peer room : Text) (s : Server) → (leave J peer room s).client_db ≡ s.client_db
  unfolding leave
  leave-client_db peer room s = (notify_left-SameTables J _ peer room _ _).client_db

  leave_each-is_member :
      (p r peer : Text) (rooms : List Text) (s : Server)
      → is_member p r (leave_each J rooms peer s).rooms
        ≡ (not (p == peer && Set.contains r rooms) && is_member p r s.rooms)
  unfolding leave_each Set.contains
  leave_each-is_member p r peer [] s = ground arith
  leave_each-is_member p r peer (room ∷ rooms) s = ground (
    arith,
    ==_iff p peer,
    ==_iff r room,
    leave_each-is_member p r peer rooms s,
    leave_each-is_member p r peer rooms (leave J peer room s),
    leave-is_member_lem p r peer room s,
  )

  leave_each-client_db :
      (peer : Text) (rooms : List Text) (s : Server)
      → (leave_each J rooms peer s).client_db ≡ s.client_db
  unfolding leave_each
  leave_each-client_db peer [] s = refl
  leave_each-client_db peer (room ∷ rooms) s = ground (
    arith,
    leave_each-client_db peer rooms s,
    leave_each-client_db peer rooms (leave J peer room s),
    leave-client_db peer room s,
  )

  contains-keys :
      (r : Text) (rooms : Rooms)
      → Set.contains r (map (λ (room, _). room) rooms) ≡ is_some (lookup r rooms)
  unfolding Set.contains lookup
  contains-keys r [] = refl
  contains-keys r ((room, peers) ∷ rooms) = ground (arith, contains-keys r rooms)

  -- When a connection closes, its peer is a member of no room any more. All other memberships stay.
  pub on_message_close-is_member :
      (ws : Ws) (p r : Text) (s : Server)
      → is_member p r (on_message_close J (some ws) s).rooms
        ≡ (not (p == ws.x_client_id) && is_member p r s.rooms)
  unfolding on_message_close members Set.contains
  on_message_close-is_member ws p r s = ground (
    arith,
    leave_each-is_member p r ws.x_client_id (map (λ (room, _). room) s.rooms) s,
    contains-keys r s.rooms,
  )

  -- A closed socket that was on file stays there: an answer with an `sdp` for its peer is still sent
  -- to it, whoever the sender is and whatever rooms they are in.
  pub close-leaves_socket :
      (ws source : Ws) (doc : J.Value) (sdp : Text) (s : Server)
      → lookup ws.x_client_id s.client_db ≡ some ws
      → string_member J (text "peer") doc ≡ some ws.x_client_id
      → string_member J (text "sdp") doc ≡ some sdp
      → let t = on_message_close J (some ws) s in
        on_answer J (some source) doc t ≡ done (send ws (rewritten J source.x_client_id doc) t)
  unfolding on_message_close on_answer
  close-leaves_socket ws source doc sdp s e p d =
      ground
        (arith, e, p, d, leave_each-client_db ws.x_client_id (map (λ (room, _). room) s.rooms) s)
