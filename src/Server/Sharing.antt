-- ===== src/Server/Sharing.antt =====
-- A file offer and the answers to it on their way through the server.
use cloud_node.Base.{nat_ord, Text, text, text_ord, pair_ord, ◌≡◌, true, some, arith}
use cloud_node.Base.Dict.{lookup}
use cloud_node.Base.Set
use cloud_node.Json.{Json, done, string_member, object_member}
use cloud_node.Rooms.{Rooms, members, touch, is_member}
use cloud_node.Server.State.{send, Ws, Server, rewritten, or_stay}
use cloud_node.Server.Files.{
  relay_file, file_request, handle_file, named_file, offered_file, on_file_offer, on_file_accept,
  on_file_reject,
}

touch-is_member :
    (peer room : Text) (rooms : Rooms) → is_member peer room rooms ≡ true → touch room rooms ≡ rooms
unfolding touch members Set.contains
touch-is_member peer room rooms h = ground (arith, h)

module _ (J : Json) where
  -- The document names a peer, a room and a file, and the sender and the peer are in the room.
  pub record IsAddressed (ws to : Ws) (doc : J.Value) (peer room : Text) (s : Server) : Type 0 where
    pub names_peer : string_member J (text "peer") doc ≡ some peer
    pub names_room : string_member J (text "room") doc ≡ some room
    pub sender_in : is_member ws.x_client_id room s.rooms ≡ true
    pub peer_in : is_member peer room s.rooms ≡ true
    pub socket : lookup peer s.client_db ≡ some to

  module _ (ws to : Ws) (doc file : J.Value) (peer room : Text) (s : Server)
      (a : IsAddressed ws to doc peer room s) where
    relay_file-sends : relay_file J ws peer room doc s ≡ send to (rewritten J ws.x_client_id doc) s
    unfolding relay_file
    relay_file-sends =
        rw (touch-is_member peer room s.rooms a.peer_in, relay_file)
          (ground (arith, a.sender_in, a.peer_in, a.socket))

    handle_file-sends :
        object_member J (text "file") doc ≡ some file
        → handle_file J (some ws) doc s ≡ send to (rewritten J ws.x_client_id doc) s
    unfolding handle_file file_request or_stay
    handle_file-sends f = rw (a.names_room, a.names_peer, f) (relay_file-sends)

    named_file-object_member :
        named_file J doc ≡ some file → object_member J (text "file") doc ≡ some file
    named_file-object_member f = ground (arith, f)

    offered_file-object_member :
        offered_file J doc ≡ some file → object_member J (text "file") doc ≡ some file
    offered_file-object_member f = ground (arith, f)

    -- A file offer between members of the room that it names, with a file that has a name, a size
    -- and a type: the peer's socket is sent the offer under the sender's id, and nothing else
    -- happens.
    pub on_file_offer-sends :
        offered_file J doc ≡ some file
        → on_file_offer J (some ws) doc s ≡ done (send to (rewritten J ws.x_client_id doc) s)
    unfolding on_file_offer
    on_file_offer-sends f =
        ground (arith, f, a.names_peer, handle_file-sends (offered_file-object_member f))

    -- So it is with an acceptance whose file has a name.
    pub on_file_accept-sends :
        named_file J doc ≡ some file
        → on_file_accept J (some ws) doc s ≡ done (send to (rewritten J ws.x_client_id doc) s)
    unfolding on_file_accept
    on_file_accept-sends f =
        ground (arith, f, a.names_peer, handle_file-sends (named_file-object_member f))

    -- And with a rejection.
    pub on_file_reject-sends :
        named_file J doc ≡ some file
        → on_file_reject J (some ws) doc s ≡ done (send to (rewritten J ws.x_client_id doc) s)
    unfolding on_file_reject
    on_file_reject-sends f =
        ground (arith, f, a.names_peer, handle_file-sends (named_file-object_member f))
