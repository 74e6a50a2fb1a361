-- ===== src/Exchange/Joined.antt =====
-- A join, from the client that asks for it through the server to all members of the room.
use cloud_node.Base.{
  if◌then◌else◌, ◌==◌, ==_refl, nat_ord, Text, text, text_cmp, text_ord, pair_ord, ◌≡◌, refl, sym,
  ap, ◌∙◌, true, false, ◌&&◌, none, some, List, [], ◌∷◌, ◌++◌, arith,
}
use cloud_node.Base.Dict.{lookup}
use cloud_node.Base.Set
use cloud_node.Json.{Json, IsLawful, done, string_member}
use cloud_node.LocalDescription.{Base64}
use cloud_node.Rooms.{members, is_member}
use cloud_node.Router.{Kind, dispatch}
use cloud_node.Router.Laws.{message_router-protocol}
use cloud_node.Server.{Ws, Server, Event, on_event, notification, handlers}
use cloud_node.Server.Consistency.{IsConsistent}
use cloud_node.Server.Announce.{Announced}
use cloud_node.Server.Presence.{on_join-Announced}
use cloud_node.Server
use cloud_node.Client.State.{waiting_for_join, joined, ◌is◌, Client, Env}
use cloud_node.Client.Callbacks.{Callback, call}
use cloud_node.Client.Callbacks
use cloud_node.Client.Session
use cloud_node.Client.Session.Agreement.{
  notification-on_join, notification-is_object, type-notification,
}
use cloud_node.Client.Sending.{join_room, c_str}

module _ (J : Json) where
  -- What `JoinRoom` writes.
  abbrev pub join_request : Text → J.Value
  join_request room =
      J.add (text "room") (J.string room) (J.add (text "type") (J.string (text "join")) J.empty)

module _ (J : Json) (base64 : Base64) where
  -- What a client makes of the announcement: its members of the room are the server's, the other rooms
  -- are as they were, and it is joined if it waited for this join.
  pub record Hears (env : Env) (who room message : Text) (t : Server) (c : Client) : Type 0 where
    pub after : Client
    pub runs : call J env base64 (Callback.message message) c ≡ done after
    pub agrees : (p : Text) → is_member p room after.rooms ≡ is_member p room t.rooms
    pub others :
        (p r : Text) → (r == room) ≡ false → is_member p r after.rooms ≡ is_member p r c.rooms
    pub state : after.state ≡ (
        if (c.state is waiting_for_join) && (room == c.room && who == env.name)
        then joined
        else c.state)

module _ (J : Json) (L : IsLawful J) (base64 : Base64) where
  member?-join_type :
      (k : Text)
      → J.member? k (J.add (text "type") (J.string (text "join")) J.empty)
        ≡ (if k == text "type" then some (J.string (text "join")) else none)
  member?-join_type k = ground (
    arith,
    L.member?-add k (text "type") (J.string (text "join")) J.empty L.is_object-empty
        (L.member?-empty (text "type")),
    L.member?-empty k,
  )

  is_object-join_type : J.is_object (J.add (text "type") (J.string (text "join")) J.empty) ≡ true
  is_object-join_type = L.is_object-add _ _ _ ∙ L.is_object-empty

  member?-join_request :
      (room k : Text)
      → J.member? k (join_request J room) ≡ (
          if k == text "room"
          then some (J.string room)
          else if k == text "type"
          then some (J.string (text "join"))
          else none)
  unfolding text_cmp
  member?-join_request room k =
      L.member?-add k (text "room") (J.string room) _ is_object-join_type
        (member?-join_type (text "room"))
      ∙ ground (arith, member?-join_type k)

  join_request-room :
      (room : Text) → string_member J (text "room") (join_request J room) ≡ some room
  join_request-room room =
      ground (
        arith,
        member?-join_request room (text "room"),
        ==_refl (text "room"),
        L.string?-string room,
      )

  -- The server runs `OnJoin` on the request.
  on_event-join :
      (ws : Ws) (room json : Text) (s : Server)
      → J.parse json ≡ some (join_request J room)
      → on_event J (Event.message ws json) s ≡ Server.on_join J (some ws) (join_request J room) s
  unfolding on_event dispatch text_cmp lookup
  on_event-join ws room json s read =
      message_router-protocol J (handlers J (some ws)) json (text "join") Kind.join
        (join_request J room) s read (L.is_object-add _ _ _ ∙ is_object-join_type)
        (ground (arith, member?-join_request room (text "type"), L.string?-string (text "join")))
        refl

  -- A client runs `OnJoin` on the announcement.
  call-peer_joined :
      (env : Env) (who room json : Text) (peers : List Text) (c : Client)
      → J.parse json ≡ some (notification J (text "peer_joined") who room peers)
      → call J env base64 (Callback.message json) c
        ≡ Session.on_join J env (notification J (text "peer_joined") who room peers) c
  unfolding call dispatch text_cmp lookup
  call-peer_joined env who room json peers c read =
      message_router-protocol J (Callbacks.handlers J env base64) json (text "peer_joined")
        Kind.join (notification J (text "peer_joined") who room peers) c read
        (notification-is_object J L env (text "peer_joined") who room peers)
        (type-notification J L env (text "peer_joined") who room peers) refl

  -- A client that is not in a room, whose name holds no NUL, asks to join it, in a server whose tables
  -- are consistent, by a message that the port takes, where the request and the announcement are read as they were written:
  -- the request is sent last; the server enters the client and announces it, with one message, to each
  -- member of the room, the new one included; and with that message any client ends with the server's
  -- members of the room, whatever it had before, and is joined if it waited for this join.
  pub join_room-Hears :
      (env : Env) (ws : Ws) (room : Text) (c : Client) (s : Server)
      → IsConsistent s
      → is_member ws.x_client_id room s.rooms ≡ false
      → c_str room ≡ room
      → env.takes (J.write (join_request J room)) ≡ true
      → J.parse (J.write (join_request J room)) ≡ some (join_request J room)
      → let peers = Set.insert ws.x_client_id (members room s.rooms) in
        let news = notification J (text "peer_joined") ws.x_client_id room peers in
        J.parse (J.write news) ≡ some news
        → (d : Client) × (t : Server) × (join_room env J room c ≡ (d, true))
          × (d.sent ≡ c.sent ++ J.write (join_request J room) ∷ [])
          × (on_event J (Event.message ws (J.write (join_request J room))) s ≡ done t)
          × Announced J (text "peer_joined") ws.x_client_id room peers peers s t
          × ((e : Env) (x : Client) → Hears J base64 e ws.x_client_id room (J.write news) t x)
  unfolding join_room
  join_room-Hears env ws room c s consistent out plain taken read back =
      let peers = Set.insert ws.x_client_id (members room s.rooms) in
      let (t, ran, entered, filed, announced) =
        on_join-Announced J ws (join_request J room) room s consistent (join_request-room room)
          out in
      (
        record c { sent = c.sent ++ J.write (join_request J room) ∷ [] },
        t,
        rw (plain, taken) refl,
        refl,
        on_event-join ws room _ s read ∙ ran,
        announced,
        λ e x.
            let (d, heard, rooms, state) = notification-on_join J L e ws.x_client_id room peers x in
            record {
              after = d;
              runs = call-peer_joined e ws.x_client_id room _ peers x back ∙ heard;
              agrees = λ p. rooms p room ∙ rw (==_refl room) (ap (Set.contains p) (sym entered));
              others = λ p r n. rooms p r ∙ rw n refl;
              state = state;
            },
      )
