-- ===== src/Examples/Presence.antt =====
-- Joins, leaves and closes on the server, and their notifications at a client.
use cloud_node.Base.{
  if◌then◌else◌, ◌==◌, nat_ord, Text, text, text_cmp, text_ord, pair_ord, ◌≡◌, refl, not, ◌&&◌,
  some, [], ◌∷◌,
}
use cloud_node.Base.Set
use cloud_node.Base.Dict.{lookup}
use cloud_node.Json.{done}
use cloud_node.Json.Values.{values-IsLawful}
use cloud_node.Rooms.{members, is_member}
use cloud_node.Server.{Server, notification, on_join, on_leave, on_message_close}
use cloud_node.Server.Announce.{Announced}
use cloud_node.Server.Presence.{on_join-Announced, on_leave-Announced}
use cloud_node.Server.Close.{on_message_close-is_member}
use cloud_node.Client.State.{waiting_for_join, Client}
use cloud_node.Client.Session
use cloud_node.Client.Session.Agreement.{notification-on_leave}
use cloud_node.Examples.Fixtures.{
  reading, written, join_doc, J, env, client, ann, cy, two_in_lab, two_in_lab-IsConsistent,
}

on_join-Announced_example :
    let peers = Set.insert (text "cy") (members (text "lab") two_in_lab.rooms) in
    (t : Server) × (on_join J (some cy) join_doc two_in_lab ≡ done t)
    × (members (text "lab") t.rooms ≡ peers)
    × (lookup (text "cy") t.client_db ≡ some cy)
    × Announced J (text "peer_joined") (text "cy") (text "lab") peers peers two_in_lab t
unfolding members Set.contains text_cmp lookup
on_join-Announced_example =
    on_join-Announced J cy join_doc (text "lab") two_in_lab two_in_lab-IsConsistent refl refl

on_leave-Announced_example :
    let peers = Set.erase (text "ann") (members (text "lab") two_in_lab.rooms) in
    (t : Server) × (on_leave J (some ann) join_doc two_in_lab ≡ done t)
    × (members (text "lab") t.rooms ≡ peers)
    × (t.client_db ≡ two_in_lab.client_db)
    × Announced J (text "peer_left") (text "ann") (text "lab") peers peers two_in_lab t
unfolding text_cmp
on_leave-Announced_example =
    on_leave-Announced J ann join_doc (text "lab") two_in_lab two_in_lab-IsConsistent refl

on_message_close-is_member_example :
    is_member (text "ann") (text "lab") (on_message_close J (some ann) two_in_lab).rooms
    ≡ (not (text "ann" == text "ann") && is_member (text "ann") (text "lab") two_in_lab.rooms)
on_message_close-is_member_example =
    on_message_close-is_member J ann (text "ann") (text "lab") two_in_lab

-- The client while it waits for its join.
abbrev waiting : Client
waiting = record client { state = waiting_for_join }

notification-on_leave_example :
    (d : Client) × (Session.on_leave J env
        (notification J (text "peer_left") (text "bob") (text "lab") (text "ann" ∷ []))
        client
      ≡ done d)
    × ((p r : Text)
        → is_member p r d.rooms ≡ (
            if r == text "lab"
            then Set.contains p (text "ann" ∷ [])
            else is_member p r client.rooms))
    × (d.state ≡ client.state)
notification-on_leave_example =
    notification-on_leave J (values-IsLawful reading written) env (text "bob") (text "lab")
      (text "ann" ∷ []) client
