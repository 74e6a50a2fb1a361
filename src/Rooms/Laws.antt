-- ===== src/Rooms/Laws.antt =====
-- The table as a relation between peers and rooms.
use cloud_node.Base.{
  Text, text_ord, ◌==◌, ==_iff, ◌&&◌, ◌||◌, not, some, List, [], if◌then◌else◌, ◌≡◌, arith,
  Option-cases, inl, inr,
}
use cloud_node.Base.Dict.{lookup, insert, lookup-insert}
use cloud_node.Base.Set
use cloud_node.Rooms.{Rooms, members, touch, join, leave, is_member}

pub lookup-touch :
    (r room : Text) (rooms : Rooms)
    → lookup r (touch room rooms)
      ≡ (if r == room then some (members room rooms) else lookup r rooms)
unfolding touch members
lookup-touch r room rooms = ground (arith, ==_iff r room, lookup-insert r room [] rooms)

pub members-touch : (r room : Text) (rooms : Rooms) → members r (touch room rooms) ≡ members r rooms
unfolding members
members-touch r room rooms = ground (arith, ==_iff r room, lookup-touch r room rooms)

pub members-insert :
    (r room : Text) (peers : List Text) (rooms : Rooms)
    → members r (insert room peers rooms) ≡ (if r == room then peers else members r rooms)
unfolding members
members-insert r room peers rooms = ground (arith, lookup-insert r room peers rooms)

-- After a join the room has the peer and whom it had, and no other room has changed. The flag says
-- whether the peer is new.
pub join-is_member :
    (p r peer room : Text) (rooms : Rooms)
    → (is_member p r (join peer room rooms).0 ≡ ((p == peer && r == room) || is_member p r rooms))
      × ((join peer room rooms).1 ≡ not (is_member peer room rooms))
unfolding join
join-is_member p r peer room rooms = ground (
  arith,
  ==_iff r room,
  ==_iff p peer,
  members-touch r room rooms,
  members-insert r room (Set.insert peer (members room rooms)) (touch room rooms),
  Set.contains-insert p peer (members room rooms),
)

-- After a leave the room lacks the peer and nobody else, and no other room has changed. The flag
-- says whether the peer was there.
pub leave-is_member :
    (p r peer room : Text) (rooms : Rooms)
    → (is_member p r (leave peer room rooms).0
        ≡ (not (p == peer && r == room) && is_member p r rooms))
      × ((leave peer room rooms).1 ≡ is_member peer room rooms)
unfolding leave members Set.contains
leave-is_member p r peer room rooms = elim (Option-cases (lookup room rooms)) [
  | inl e ↦ ground (arith, ==_iff r room, ==_iff p peer)
  | inr (peers, e) ↦ ground (
    arith,
    ==_iff r room,
    ==_iff p peer,
    lookup-insert r room (Set.erase peer peers) rooms,
    Set.contains-erase p peer peers,
  )
]
