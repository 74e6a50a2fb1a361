-- ===== src/Server/Relay.antt =====
-- The relays of WebRTC negotiation and of file completion.
use cloud_node.Base.{
  is_some, ◌>>=◌, ◌>>◌, guard, nat_ord, Text, text, text_ord, pair_ord, Bool, ◌&&◌, Option, some,
}
use cloud_node.Base.Dict.{lookup}
use cloud_node.Json.{Json, Run, done, string_member, array_member}
use cloud_node.Rooms.{Rooms}
use cloud_node.Server.State.{Ws, Server, send, or_return, both_members, rewritten}

module _ (J : Json) where
  -- `m_rooms.find(room)`, and both are in it.
  abbrev together : Text → Text → Text → Rooms → Bool
  together from peer room rooms = is_some (lookup room rooms) && both_members J from peer room rooms

  unfoldable pub on_offer : Option Ws → J.Value → Server → Run Server
  on_offer current doc s = done (
      or_return
        (do
          peer ← string_member J (text "peer") doc
          room ← string_member J (text "room") doc
          descriptions ← array_member J (text "descriptions") doc
          source ← current
          guard (together source.x_client_id peer room s.rooms)
          ws ← lookup peer s.client_db
          some (send ws (rewritten J source.x_client_id doc) s))
        s)

  unfoldable pub on_file_complete : Option Ws → J.Value → Server → Run Server
  on_file_complete current doc s = done (
      or_return
        (do
          peer ← string_member J (text "peer") doc
          room ← string_member J (text "room") doc
          source ← current
          guard (together source.x_client_id peer room s.rooms)
          recipient ← lookup peer s.client_db
          some (send recipient (rewritten J source.x_client_id doc) s))
        s)

  -- The room is not looked at.
  unfoldable pub on_answer : Option Ws → J.Value → Server → Run Server
  on_answer current doc s = done (
      or_return
        (do
          peer ← string_member J (text "peer") doc
          sdp ← string_member J (text "sdp") doc
          ws ← lookup peer s.client_db
          source ← current
          some (send ws (rewritten J source.x_client_id doc) s))
        s)

  unfoldable pub on_candidate : Option Ws → J.Value → Server → Run Server
  on_candidate current doc s = done (
      or_return
        (do
          peer ← string_member J (text "peer") doc
          candidate ← string_member J (text "candidate") doc
          mid ← string_member J (text "mid") doc
          ws ← lookup peer s.client_db
          source ← current
          some (send ws (rewritten J source.x_client_id doc) s))
        s)
