-- ===== src/Client/Session/Agreement.antt =====
-- What the server's notifications do to a client's table of rooms.
use cloud_node.Base.{
  if◌then◌else◌, ◌==◌, ==_iff, nat_ord, Text, text, text_cmp, text_ord, pair_ord, ◌≡◌, refl, ap,
  ◌∙◌, true, ◌&&◌, ◌||◌, Option, none, some, List, [], ◌∷◌, map, arith,
}
use cloud_node.Base.Set
use cloud_node.Json.{Json, IsLawful, done, string_member, array_member}
use cloud_node.Rooms
use cloud_node.Rooms.{Rooms, members, is_member, update_peers}
use cloud_node.Rooms.Laws.{members-insert, leave-is_member}
use cloud_node.Server.{notification}
use cloud_node.Client.State.{waiting_for_join, joined, ◌is◌, Client, Env}
use cloud_node.Client.Session.{
  peer_set, confirmed, join_news, on_news, on_join, left, on_leave_values, leave_request,
  on_leave_request, on_leave,
}

module _ (J : Json) (L : IsLawful J) (env : Env) where
  -- A set with the same members as the list and the set at the start.
  contains-peer_set :
      (peers acc : List Text)
      → (set : List Text) × (peer_set J env (map J.string peers) acc ≡ some set)
        × ((p : Text) → Set.contains p set ≡ (Set.contains p peers || Set.contains p acc))
  unfolding peer_set Set.contains
  contains-peer_set [] acc = (acc, refl, λ p. refl)
  contains-peer_set (q ∷ peers) acc =
      let (set, e, h) = contains-peer_set peers (Set.insert q acc) in
      (
        set,
        rw (L.string?-string q, peer_set) e,
        λ p. h p ∙ ground (arith, Set.contains-insert p q acc),
      )

  module _ (type who room : Text) (peers : List Text) where
    abbrev doc : J.Value
    doc = notification J type who room peers

    abbrev typed : J.Value
    typed = J.add (text "type") (J.string type) J.empty

    abbrev named : J.Value
    named = J.add (text "peerId") (J.string who) typed

    abbrev placed : J.Value
    placed = J.add (text "room") (J.string room) named

    member?-typed :
        (k : Text) → J.member? k typed ≡ (if k == text "type" then some (J.string type) else none)
    member?-typed k = ground (
      arith,
      L.member?-add k (text "type") (J.string type) J.empty L.is_object-empty
          (L.member?-empty (text "type")),
      L.member?-empty k,
    )

    is_object-typed : J.is_object typed ≡ true
    is_object-typed = L.is_object-add _ _ _ ∙ L.is_object-empty

    member?-named :
        (k : Text)
        → J.member? k named
          ≡ (if k == text "peerId" then some (J.string who) else J.member? k typed)
    unfolding text_cmp
    member?-named k =
        L.member?-add k (text "peerId") (J.string who) typed is_object-typed
          (member?-typed (text "peerId"))

    is_object-named : J.is_object named ≡ true
    is_object-named = L.is_object-add _ _ _ ∙ is_object-typed

    member?-placed :
        (k : Text)
        → J.member? k placed
          ≡ (if k == text "room" then some (J.string room) else J.member? k named)
    unfolding text_cmp
    member?-placed k =
        L.member?-add k (text "room") (J.string room) named is_object-named
          (member?-named (text "room") ∙ member?-typed (text "room"))

    member?-doc :
        (k : Text)
        → J.member? k doc
          ≡ (if k == text "peers" then some (J.array (map J.string peers)) else J.member? k placed)
    unfolding notification text_cmp
    member?-doc k =
        L.member?-add k (text "peers") (J.array (map J.string peers)) placed
          (L.is_object-add _ _ _ ∙ is_object-named)
          (member?-placed (text "peers")
            ∙ member?-named (text "peers")
            ∙ member?-typed (text "peers"))

    pub notification-is_object : J.is_object (notification J type who room peers) ≡ true
    unfolding notification
    notification-is_object =
        L.is_object-add _ _ _ ∙ L.is_object-add _ _ _ ∙ L.is_object-add _ _ _ ∙ is_object-typed

    pub type-notification :
        string_member J (text "type") (notification J type who room peers) ≡ some type
    unfolding text_cmp
    type-notification =
        rw
          (
            member?-doc (text "type"),
            member?-placed (text "type"),
            member?-named (text "type"),
            member?-typed (text "type"),
          )
          (L.string?-string type)

    room_of_doc : string_member J (text "room") doc ≡ some room
    unfolding text_cmp
    room_of_doc =
        rw (member?-doc (text "room"), member?-placed (text "room")) (L.string?-string room)

    who_of_doc : string_member J (text "peerId") doc ≡ some who
    unfolding text_cmp
    who_of_doc =
        rw
          (
            member?-doc (text "peerId"),
            member?-placed (text "peerId"),
            member?-named (text "peerId"),
          )
          (L.string?-string who)

    peers_of_doc : array_member J (text "peers") doc ≡ some (map J.string peers)
    unfolding text_cmp
    peers_of_doc = rw (member?-doc (text "peers")) (L.array?-array (map J.string peers))

    join_news-doc :
        (set : List Text)
        → peer_set J env (map J.string peers) [] ≡ some set
        → join_news J env doc ≡ some (room, who, set)
    unfolding join_news
    join_news-doc set h = rw (room_of_doc, who_of_doc, peers_of_doc, h) refl

  members-update_peers :
      (p r room : Text) (set peers : List Text) (rooms : Rooms)
      → ((q : Text) → Set.contains q set ≡ (Set.contains q peers || Set.contains q []))
      → is_member p r (update_peers room set rooms)
        ≡ (if r == room then Set.contains p peers else is_member p r rooms)
  unfolding update_peers Set.contains
  members-update_peers p r room set peers rooms h =
      ground (arith, members-insert r room set rooms, h p)

  confirmed-rooms : (room who : Text) (c : Client) → (confirmed J env room who c).rooms ≡ c.rooms
  confirmed-rooms room who c = ground arith

  -- A client that reads the server's `peer_joined` ends with the announced members in the room, and
  -- the other rooms as they were. It becomes joined exactly when it was waiting for its own join of
  -- this room, and keeps its state otherwise.
  pub notification-on_join :
      (who room : Text) (peers : List Text) (c : Client)
      → (d : Client) × (on_join J env (notification J (text "peer_joined") who room peers) c
          ≡ done d)
        × ((p r : Text)
            → is_member p r d.rooms
              ≡ (if r == room then Set.contains p peers else is_member p r c.rooms))
        × (d.state ≡ (
            if (c.state is waiting_for_join) && (room == c.room && who == env.name)
            then joined
            else c.state))
  unfolding on_join
  notification-on_join who room peers c =
      let (set, e, h) = contains-peer_set peers [] in
      let news = join_news-doc (text "peer_joined") who room peers set e in
      let t = record c { rooms = update_peers room set c.rooms } in
      (
        confirmed J env room who t,
        ap (λ (o : Option (Text × Text × List Text)). done (on_news J env o c)) news,
        λ p r.
            ap (λ (x : Rooms). is_member p r x) (confirmed-rooms room who t)
            ∙ members-update_peers p r room set peers c.rooms h,
        ground arith,
      )

  leave_request-doc :
      (who room : Text) (peers : List Text)
      → leave_request J env (notification J (text "peer_left") who room peers) ≡ some (room, who)
  leave_request-doc who room peers =
      rw
        (
          room_of_doc (text "peer_left") who room peers,
          who_of_doc (text "peer_left") who room peers,
        )
        refl

  -- A client that reads the server's `peer_left` ends with the announced members in the room, and
  -- the other rooms as they were. Its state stays.
  pub notification-on_leave :
      (who room : Text) (peers : List Text) (c : Client)
      → (d : Client) × (on_leave J env (notification J (text "peer_left") who room peers) c
          ≡ done d)
        × ((p r : Text)
            → is_member p r d.rooms
              ≡ (if r == room then Set.contains p peers else is_member p r c.rooms))
        × (d.state ≡ c.state)
  unfolding on_leave
  notification-on_leave who room peers c =
      let (set, e, h) = contains-peer_set peers [] in
      let t = record c { rooms = (Rooms.leave who room c.rooms).0 } in
      let doc = notification J (text "peer_left") who room peers in
      (
        record t { rooms = update_peers room set t.rooms },
        ap (λ (o : Option (Text × Text)). on_leave_request J env doc o c)
              (leave_request-doc who room peers)
            ∙ ap (λ (o : Option (List J.Value)). on_leave_values J env room o t)
                (peers_of_doc (text "peer_left") who room peers)
            ∙ ap (λ (o : Option (List Text)). done (left J env room o t)) e,
        λ p r.
            members-update_peers p r room set peers t.rooms h
            ∙ ground (arith, ==_iff r room, leave-is_member p r who room c.rooms),
        refl,
      )
