-- ===== src/Server/Files.antt =====
-- The relay of file offers and of the answers to them.
use cloud_node.Base.{
  if◌then◌else◌, ◌>>=◌, nat_ord, Text, text, text_ord, pair_ord, Option, none, some,
}
use cloud_node.Base.Dict.{lookup}
use cloud_node.Json.{Json, Run, done, fault, string_member, object_member}
use cloud_node.Rooms.{touch}
use cloud_node.Server.State.{Ws, Server, send, or_stay, both_members, rewritten}

module _ (J : Json) where
  abbrev int64_member : Text → J.Value → Option (Unit {0})
  int64_member k v = J.member? k v >>= J.int64? >>= λ _. some tt

  -- The end of `HandleFile`, for a recipient that was found. Whether the transport took the message
  -- decides a result that no caller reads.
  abbrev forward : Text → J.Value → Option Ws → Server → Server
  forward from doc none s = s
  forward from doc (some ws) s = send ws (rewritten J from doc) s

  -- `m_rooms[room]` makes a room that is not there, also where the message is then refused.
  unfoldable pub relay_file : Ws → Text → Text → J.Value → Server → Server
  relay_file source peer room doc s =
      let t = record s { rooms = touch room s.rooms } in
      if both_members J source.x_client_id peer room t.rooms
      then forward source.x_client_id doc (lookup peer t.client_db) t
      else t

  -- The checks of `HandleFile`: the sender's socket, the peer and the room.
  unfoldable pub file_request : Option Ws → J.Value → Option (Ws × Text × Text)
  file_request current doc = do
    room ← string_member J (text "room") doc
    peer ← string_member J (text "peer") doc
    file ← object_member J (text "file") doc
    source ← current
    some (source, peer, room)

  unfoldable pub handle_file : Option Ws → J.Value → Server → Server
  unfolding relay_file or_stay file_request
  handle_file current doc s =
      or_stay (file_request current doc) (λ (source, peer, room). relay_file source peer room doc s)
        s

  -- The log line reads `doc["peer"].GetString()` before anything has checked it.
  abbrev logged : Option Text → Option Ws → J.Value → Server → Run Server
  logged none current doc s = fault
  logged (some peer) current doc s = done (handle_file current doc s)

  abbrev from_socket : Option Ws → J.Value → Server → Run Server
  from_socket none doc s = done s
  from_socket (some ws) doc s = logged (string_member J (text "peer") doc) (some ws) doc s

  -- `doc["file"]["name"]`, which all three handlers want.
  abbrev pub named_file : J.Value → Option J.Value
  named_file doc = do
    file ← object_member J (text "file") doc
    name ← string_member J (text "name") file
    some file

  abbrev pub offered_file : J.Value → Option J.Value
  offered_file doc = do
    file ← named_file doc
    size ← int64_member (text "size") file
    mime_type ← string_member J (text "mimeType") file
    some file

  unfoldable pub on_file_offer : Option Ws → J.Value → Server → Run Server
  on_file_offer current doc s = elim (offered_file doc) [
    | none ↦ done s
    | some file ↦ from_socket current doc s
  ]

  unfoldable pub on_file_accept : Option Ws → J.Value → Server → Run Server
  on_file_accept current doc s = elim (named_file doc) [
    | none ↦ done s
    | some file ↦ from_socket current doc s
  ]

  unfoldable pub on_file_reject : Option Ws → J.Value → Server → Run Server
  on_file_reject current doc s = elim (named_file doc) [
    | none ↦ done s
    | some file ↦ elim (string_member J (text "peer") doc) [
      | none ↦ done s
      | some sender ↦ done (handle_file current doc s)
    ]
  ]
