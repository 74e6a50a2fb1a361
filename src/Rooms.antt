-- ===== src/Rooms.antt =====
-- src/WebRTC.cpp: the table of rooms and their members, which both roles keep.
pub mod Laws
use cloud_node.Base.{
  Text, text_ord, ◌==◌, Bool, true, false, Option, none, some, List, [], if◌then◌else◌, ◌≡◌,
}
use cloud_node.Base.Dict.{Dict, lookup, insert}
use cloud_node.Base.Set

-- `m_rooms`
abbrev pub Rooms : Type 0
Rooms = Dict Text (List Text)

-- `m_rooms[room]` as a value
abbrev pub or_empty : Option (List Text) → List Text
or_empty none = []
or_empty (some peers) = peers

unfoldable pub members : Text → Rooms → List Text
members room rooms = or_empty (lookup room rooms)

-- `m_rooms[room]` for its effect: a missing room is made, empty.
unfoldable pub touch : Text → Rooms → Rooms
touch room rooms = elim (lookup room rooms) [ none ↦ insert room [] rooms | some _ ↦ rooms ]

-- The vector is assigned if the room is there.
unfoldable pub get_peers : Text → Rooms → Option (List Text)
get_peers room rooms = lookup room rooms

unfoldable pub clear_rooms : Rooms → Rooms
clear_rooms rooms = []

unfoldable pub update_peers : Text → List Text → Rooms → Rooms
update_peers room peers rooms = insert room peers rooms

-- The new table, and whether the peer was new to the room.
unfoldable pub join : Text → Text → Rooms → Rooms × Bool
unfolding members
join peer room rooms =
    let peers = members room rooms in
    if Set.contains peer peers
    then (touch room rooms, false)
    else (insert room (Set.insert peer peers) (touch room rooms), true)

unfoldable pub leave : Text → Text → Rooms → Rooms × Bool
leave peer room rooms = elim (lookup room rooms) [
  | none ↦ (rooms, false)
  | some peers ↦
      if Set.contains peer peers
      then (insert room (Set.erase peer peers) rooms, true)
      else (rooms, false)
]

-- `m_rooms[room].find(peer) != end()`
abbrev pub is_member : Text → Text → Rooms → Bool
is_member peer room rooms = Set.contains peer (members room rooms)
