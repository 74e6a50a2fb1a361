-- ===== src/Server/Presence.antt =====
-- Who is told of a join and of a leave, and what a closed connection leaves behind.
use cloud_node.Base.{
  Bool-cases, ◌==◌, ==_iff, ==_refl, nat_ord, Text, text, text_ord, pair_ord, ◌≡◌, refl, inl, inr,
  true, false, some, List, arith,
}
use cloud_node.Base.Dict.{lookup, insert, lookup-insert}
use cloud_node.Base.Set
use cloud_node.Json.{Json, done, string_member}
use cloud_node.Rooms
use cloud_node.Rooms.{Rooms, members, touch, is_member}
use cloud_node.Rooms.Laws.{members-insert}
use cloud_node.Server.State.{Ws, Server}
use cloud_node.Server.Membership.{notify_joined, notify_left, enter, leave, on_join, on_leave}
use cloud_node.Server.Consistency.{
  IsConsistent, SameTables, notify_joined-SameTables, notify_left-SameTables,
}
use cloud_node.Server.Announce.{
  Announced, Reached, All-of_contains, notify_joined-Announced, notify_left-Announced,
  consistent_reach, members-leave, Announced-from,
}

module _ (J : Json) where
  members-join :
      (peer room : Text) (rooms : Rooms)
      → is_member peer room rooms ≡ false
      → (members room (Rooms.join peer room rooms).0 ≡ Set.insert peer (members room rooms))
        × ((Rooms.join peer room rooms).1 ≡ true)
  unfolding Rooms.join
  members-join peer room rooms h = ground (
    arith,
    ==_refl room,
    members-insert room room (Set.insert peer (members room rooms)) (touch room rooms),
  )

  leave-Announced :
      (peer room : Text) (s : Server)
      → IsConsistent s
      → let peers = Set.erase peer (members room s.rooms) in
        (members room (leave J peer room s).rooms ≡ peers)
        × ((leave J peer room s).client_db ≡ s.client_db)
        × Announced J (text "peer_left") peer room peers peers s (leave J peer room s)
  unfolding leave
  leave-Announced peer room s c =
      rw (members-leave J peer room s.rooms, leave)
        (
          rw (same.rooms) (members-leave J peer room s.rooms),
          same.client_db,
          Announced-from J (text "peer_left") peer room _ _ _ s _ refl
              (notify_left-Announced J peers peer room peers left reach),
        )
    where
      peers : List Text
      peers = Set.erase peer (members room s.rooms)

      left : Server
      left = record s { rooms = touch room (Rooms.leave peer room s.rooms).0 }

      same : SameTables left (notify_left J peers peer room peers left)
      same = notify_left-SameTables J peers peer room peers left

      reach : Reached J peers s.client_db
      reach = All-of_contains J peers s.client_db λ u h.
          consistent_reach J s c u room
            (ground (arith, h, Set.contains-erase u peer (members room s.rooms)))

  enter-Announced :
      (ws : Ws) (room : Text) (s : Server)
      → IsConsistent s
      → is_member ws.x_client_id room s.rooms ≡ false
      → let peers = Set.insert ws.x_client_id (members room s.rooms) in
        (members room (enter J ws room s).rooms ≡ peers)
        × (lookup ws.x_client_id (enter J ws room s).client_db ≡ some ws)
        × Announced J (text "peer_joined") ws.x_client_id room peers peers s (enter J ws room s)
  unfolding enter
  enter-Announced ws room s c m =
      rw (joins.1, joins.0, enter)
        (
          rw (same.rooms) joins.0,
          rw (same.client_db) (ground (arith, lookup-insert id id ws s.client_db, ==_refl id)),
          Announced-from J (text "peer_joined") id room _ _ _ s _ refl
              (notify_joined-Announced J peers id room peers joined reach),
        )
    where
      open ws use {x_client_id as id}

      peers : List Text
      peers = Set.insert id (members room s.rooms)

      joins :
          (members room (Rooms.join id room s.rooms).0 ≡ peers)
          × ((Rooms.join id room s.rooms).1 ≡ true)
      joins = members-join id room s.rooms m

      joined : Server
      joined = record s {
        rooms = (Rooms.join id room s.rooms).0;
        client_db = insert id ws s.client_db;
      }

      same : SameTables joined (notify_joined J peers id room peers joined)
      same = notify_joined-SameTables J peers id room peers joined

      found :
          (u : Text)
          → Set.contains u peers ≡ true
          → (to : Ws) × (lookup u (insert id ws s.client_db) ≡ some to) × (to.x_client_id ≡ u)
      found u h = elim (Bool-cases (u == id)) [
        | inl e ↦ (
          ws,
          ground (arith, e, lookup-insert u id ws s.client_db),
          ground (arith, e, ==_iff u id),
        )
        | inr e ↦
            let (to, f, i) =
              consistent_reach J s c u room
                (ground (arith, h, e, Set.contains-insert u id (members room s.rooms))) in
            (to, ground (arith, e, f, lookup-insert u id ws s.client_db), i)
      ]

      reach : Reached J peers joined.client_db
      reach = All-of_contains J peers joined.client_db found

  -- In a consistent state, a peer that joins a room it was not in is entered there with its socket, and every member of
  -- the room, the new one included, gets one `peer_joined` message with the new list of members.
  pub on_join-Announced :
      (ws : Ws) (doc : J.Value) (room : Text) (s : Server)
      → IsConsistent s
      → string_member J (text "room") doc ≡ some room
      → is_member ws.x_client_id room s.rooms ≡ false
      → let peers = Set.insert ws.x_client_id (members room s.rooms) in
        (t : Server) × (on_join J (some ws) doc s ≡ done t)
        × (members room t.rooms ≡ peers)
        × (lookup ws.x_client_id t.client_db ≡ some ws)
        × Announced J (text "peer_joined") ws.x_client_id room peers peers s t
  unfolding on_join
  on_join-Announced ws doc room s c r m =
      let a = enter-Announced ws room s c m in (enter J ws room s, rw (r, on_join), a.0, a.1, a.2)

  -- In a consistent state, a leave takes the sender out of the room, if it is in it. In either case every member that is
  -- left gets one `peer_left` message with the list of those members.
  pub on_leave-Announced :
      (ws : Ws) (doc : J.Value) (room : Text) (s : Server)
      → IsConsistent s
      → string_member J (text "room") doc ≡ some room
      → let peers = Set.erase ws.x_client_id (members room s.rooms) in
        (t : Server) × (on_leave J (some ws) doc s ≡ done t)
        × (members room t.rooms ≡ peers)
        × (t.client_db ≡ s.client_db)
        × Announced J (text "peer_left") ws.x_client_id room peers peers s t
  unfolding on_leave
  on_leave-Announced ws doc room s c r =
      let a = leave-Announced ws.x_client_id room s c in
      (leave J ws.x_client_id room s, rw (r, on_leave), a.0, a.1, a.2)
