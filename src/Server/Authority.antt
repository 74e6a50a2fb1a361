-- ===== src/Server/Authority.antt =====
-- Which messages the server passes on, to whom, and what it makes of them.
use cloud_node.Base.{
  if◌then◌else◌, Bool-cases, Option-cases, ◌>>=◌, ◌>>◌, guard, ◌==◌, ==_iff, ==_refl, nat_ord, Text,
  text, text_ord, pair_ord, ◌≡◌, refl, ◌≢◌, ◌⊎◌, inl, inr, Bool, true, false, Option, none, some,
  List, [], ◌∷◌, ◌++◌, append-nil, arith,
}
use cloud_node.Base.Dict.{lookup}
use cloud_node.Base.Set
use cloud_node.Json.{Json, IsLawful, done, string_member, array_member}
use cloud_node.Rooms.{is_member, members}
use cloud_node.Rooms.Laws.{members-touch}
use cloud_node.Router.{Kind, dispatch}
use cloud_node.Server.State.{send, Ws, Server, both_members, rewritten, or_stay-rule}
use cloud_node.Server.Relay.{on_offer, on_file_complete}
use cloud_node.Server.Files.{relay_file, file_request, handle_file}
use cloud_node.Server.Dispatch.{handlers}
use cloud_node.Server.Consistency.{
  on_file_offer-cases, on_file_accept-cases, on_file_reject-cases, IsConsistent,
}

-- The kinds of message that the server passes on between members of a room.
abbrev pub within_room : Kind → Bool
within_room Kind.file_accept = true
within_room Kind.file_reject = true
within_room Kind.offer = true
within_room Kind.file_offer = true
within_room Kind.file_complete = true
within_room _ = false

module _ (J : Json) where
  -- The document names a peer and a room, the sender and the peer are both in the room, and the
  -- one message sent goes to the peer's socket: the document with the sender's id in the place of
  -- the peer's, and every other member as it was.
  pub record Relayed (ws : Ws) (doc : J.Value) (s t : Server) : Type 0 where
    pub peer : Text
    pub room : Text
    pub to : Ws
    pub copy : J.Value
    pub names_peer : string_member J (text "peer") doc ≡ some peer
    pub names_room : string_member J (text "room") doc ≡ some room
    pub sender_in : is_member ws.x_client_id room s.rooms ≡ true
    pub peer_in : is_member peer room s.rooms ≡ true
    pub socket : lookup peer s.client_db ≡ some to
    pub sent : t.sent ≡ s.sent ++ (to, J.write copy) ∷ []
    pub names_sender : string_member J (text "peer") copy ≡ some ws.x_client_id
    pub others : (k : Text) → k ≢ text "peer" → J.member? k copy ≡ J.member? k doc

  -- What the policy lets a sender send.
  abbrev addressed : Ws → J.Value → Server → Option Ws
  addressed ws doc s = do
    peer ← string_member J (text "peer") doc
    room ← string_member J (text "room") doc
    guard (both_members J ws.x_client_id peer room s.rooms)
    lookup peer s.client_db

  abbrev outgoing : Option Ws → Text → List (Ws × Text)
  outgoing none message = []
  outgoing (some to) message = (to, message) ∷ []

  abbrev Permitted : Ws → J.Value → Server → Server → Type 0
  Permitted ws doc s t =
      (t.sent ≡ s.sent)
      ⊎ (t.sent ≡ s.sent ++ outgoing (addressed ws doc s) (rewritten J ws.x_client_id doc))

  on_offer-Permitted :
      (ws : Ws) (doc : J.Value) (s : Server) {t : Server}
      → on_offer J (some ws) doc s ≡ done t
      → Permitted ws doc s t
  unfolding on_offer
  on_offer-Permitted ws doc s h = ground arith

  on_file_complete-Permitted :
      (ws : Ws) (doc : J.Value) (s : Server) {t : Server}
      → on_file_complete J (some ws) doc s ≡ done t
      → Permitted ws doc s t
  unfolding on_file_complete
  on_file_complete-Permitted ws doc s h = ground arith

  relay_file_sent :
      (ws : Ws) (peer room : Text) (doc : J.Value) (s : Server)
      → string_member J (text "peer") doc ≡ some peer
      → string_member J (text "room") doc ≡ some room
      → Permitted ws doc s (relay_file J ws peer room doc s)
  unfolding relay_file
  relay_file_sent ws peer room doc s p r =
      rw (members-touch room room s.rooms, relay_file) (ground arith)

  file_request-fields :
      (ws source : Ws) (peer room : Text) (doc : J.Value)
      → file_request J (some ws) doc ≡ some (source, peer, room)
      → (source ≡ ws)
        × (string_member J (text "peer") doc ≡ some peer)
        × (string_member J (text "room") doc ≡ some room)
  unfolding file_request
  file_request-fields ws source peer room doc h = (ground arith, ground arith, ground arith)

  handle_file-Permitted :
      (ws : Ws) (doc : J.Value) (s : Server) → Permitted ws doc s (handle_file J (some ws) doc s)
  unfolding handle_file
  handle_file-Permitted ws doc s =
      or_stay-rule (Permitted ws doc s) (file_request J (some ws) doc) s (inl refl)
        λ (source, peer, room) e.
          let f = file_request-fields ws source peer room doc e in
          rw f.0 (relay_file_sent ws peer room doc s f.1 f.2)

  file_cases :
      (ws : Ws) (doc : J.Value) (s : Server) {t : Server}
      → (t ≡ s) ⊎ (t ≡ handle_file J (some ws) doc s)
      → Permitted ws doc s t
  file_cases ws doc s (inl e) = rw e (inl refl)
  file_cases ws doc s (inr e) = rw e (handle_file-Permitted ws doc s)

  dispatch-Permitted :
      (ws : Ws) (kind : Kind) (doc : J.Value) (s : Server) {t : Server}
      → within_room kind ≡ true
      → dispatch J (handlers J (some ws)) kind doc s ≡ done t
      → Permitted ws doc s t
  unfolding dispatch
  dispatch-Permitted ws Kind.file_accept doc s k h =
      file_cases ws doc s (on_file_accept-cases J (some ws) doc s h)
  dispatch-Permitted ws Kind.file_reject doc s k h =
      file_cases ws doc s (on_file_reject-cases J (some ws) doc s h)
  dispatch-Permitted ws Kind.offer doc s k h = on_offer-Permitted ws doc s h
  dispatch-Permitted ws Kind.file_offer doc s k h =
      file_cases ws doc s (on_file_offer-cases J (some ws) doc s h)
  dispatch-Permitted ws Kind.file_complete doc s k h = on_file_complete-Permitted ws doc s h
  dispatch-Permitted ws Kind.join doc s k h = absurd (cc)
  dispatch-Permitted ws Kind.leave doc s k h = absurd (cc)
  dispatch-Permitted ws _ doc s k h = absurd (cc)

  module _ (L : IsLawful J) where
    pub set_peer :
        (from : Text) (doc : J.Value) {peer : Text} (k : Text)
        → string_member J (text "peer") doc ≡ some peer
        → J.member? k (J.set_string (text "peer") from doc)
          ≡ (if k == text "peer" then some (J.string from) else J.member? k doc)
    set_peer from doc {peer} k h = elim (Option-cases (J.member? (text "peer") doc)) [
      | inl e ↦ absurd (ground (arith, e, h))
      | inr (w, e) ↦ L.member?-set_string k (text "peer") from doc e
    ]

    relayed :
        (ws : Ws) (doc : J.Value) (s t : Server) (peer room : Text) (to : Ws)
        → string_member J (text "peer") doc ≡ some peer
        → string_member J (text "room") doc ≡ some room
        → both_members J ws.x_client_id peer room s.rooms ≡ true
        → lookup peer s.client_db ≡ some to
        → t.sent ≡ s.sent ++ (to, rewritten J ws.x_client_id doc) ∷ []
        → Relayed ws doc s t
    relayed ws doc s t peer room to p r b d e = record {
      peer = peer;
      room = room;
      to = to;
      copy = J.set_string (text "peer") ws.x_client_id doc;
      names_peer = p;
      names_room = r;
      sender_in = ground arith;
      peer_in = ground arith;
      socket = d;
      sent = e;
      names_sender = ground (
        arith,
        set_peer ws.x_client_id doc {peer = peer} (text "peer") p,
        ==_refl (text "peer"),
        L.string?-string ws.x_client_id,
      );
      others = λ k ne.
          ground (arith, set_peer ws.x_client_id doc {peer = peer} k p, ne, ==_iff k (text "peer"));
    }

    Permitted-Relayed :
        (ws : Ws) (doc : J.Value) (s t : Server)
        → Permitted ws doc s t
        → (t.sent ≡ s.sent) ⊎ Relayed ws doc s t
    Permitted-Relayed ws doc s t (inl e) = inl e
    Permitted-Relayed ws doc s t (inr e) = elim (Option-cases (string_member J (text "peer") doc)) [
      | inl ep ↦ inl (ground (arith, append-nil s.sent))
      | inr (peer, ep) ↦ elim (Option-cases (string_member J (text "room") doc)) [
        | inl er ↦ inl (ground (arith, append-nil s.sent))
        | inr (room, er) ↦ elim (Bool-cases (both_members J ws.x_client_id peer room s.rooms)) [
          | inr b ↦ inl (ground (arith, append-nil s.sent))
          | inl b ↦ elim (Option-cases (lookup peer s.client_db)) [
            | inl ed ↦ inl (ground (arith, append-nil s.sent))
            | inr (to, ed) ↦ inr (relayed ws doc s t peer room to ep er b ed (ground arith))
          ]
        ]
      ]
    ]

    -- On an offer, a file offer, the answers to it and a completion, the server sends nothing or
    -- relays: only between members of the room that the message names, to the peer that it names,
    -- and under the true id of the sender.
    pub dispatch-Relayed :
        (ws : Ws) (kind : Kind) (doc : J.Value) (s : Server) {t : Server}
        → within_room kind ≡ true
        → dispatch J (handlers J (some ws)) kind doc s ≡ done t
        → (t.sent ≡ s.sent) ⊎ Relayed ws doc s t
    dispatch-Relayed ws kind doc s {t} k h =
        Permitted-Relayed ws doc s t (dispatch-Permitted ws kind doc s k h)

  -- In a consistent state an offer with a peer, a room and a list of descriptions, between members of
  -- that room, is sent to a socket that carries the peer's id, and nothing else happens.
  pub on_offer-delivers :
      (ws : Ws) (doc : J.Value) (descriptions : List J.Value) (peer room : Text) (s : Server)
      → IsConsistent s
      → string_member J (text "peer") doc ≡ some peer
      → string_member J (text "room") doc ≡ some room
      → array_member J (text "descriptions") doc ≡ some descriptions
      → is_member ws.x_client_id room s.rooms ≡ true
      → is_member peer room s.rooms ≡ true
      → (to : Ws) × (to.x_client_id ≡ peer)
        × (on_offer J (some ws) doc s ≡ done (send to (rewritten J ws.x_client_id doc) s))
  unfolding on_offer members Set.contains
  on_offer-delivers ws doc descriptions peer room s c p r d f m =
      elim (Option-cases (lookup peer s.client_db)) [
        | inl e ↦ absurd (ground (arith, e, c.reachable peer room m))
        | inr (to, e) ↦ (to, c.filed peer e, ground (arith, p, r, d, f, m, e))
      ]
