-- ===== src/Examples/Signalling.antt =====
-- The server's table, router and relay.
use cloud_node.Base.{nat_ord, text, text_cmp, text_ord, pair_ord, ◌≡◌, refl, ◌⊎◌, some, []}
use cloud_node.Base.Set
use cloud_node.Base.Dict.{lookup}
use cloud_node.Json.{done}
use cloud_node.Rooms
use cloud_node.Rooms.{is_member}
use cloud_node.Router.{Kind, dispatch, message_router}
use cloud_node.Router.Laws.{message_router-protocol}
use cloud_node.Server.{Ws, Server, send, rewritten, handlers, on_event, on_offer, on_message_close}
use cloud_node.Server.{Event}
use cloud_node.Server.Consistency.{IsConsistent}
use cloud_node.Server.Consistency.Events.{on_event-IsConsistent}
use cloud_node.Server.Authority.{Relayed, dispatch-Relayed, on_offer-delivers}
use cloud_node.Json.Values.{values-IsLawful}
use cloud_node.Examples.Fixtures.{
  reading, written, offer_doc, join_doc, J, ann, bob, cy, two_in_lab, two_in_lab-IsConsistent,
}

message_router-protocol_example :
    message_router J (handlers J (some cy)) (text "join") two_in_lab
    ≡ dispatch J (handlers J (some cy)) Kind.join join_doc two_in_lab
unfolding text_cmp lookup
message_router-protocol_example =
    message_router-protocol J (handlers J (some cy)) (text "join") (text "join") Kind.join join_doc
      two_in_lab refl refl refl refl

-- What the server sends to bob.
abbrev relayed : Server
relayed = send bob (text "offer") two_in_lab

dispatch-Relayed_example :
    (relayed.sent ≡ two_in_lab.sent) ⊎ Relayed J ann offer_doc two_in_lab relayed
unfolding dispatch on_offer Set.contains Rooms.members text_cmp lookup
dispatch-Relayed_example =
    dispatch-Relayed J (values-IsLawful reading written) ann Kind.offer offer_doc two_in_lab refl
      refl

on_offer-delivers_example :
    (to : Ws) × (to.x_client_id ≡ text "bob")
    × (on_offer J (some ann) offer_doc two_in_lab
        ≡ done (send to (rewritten J (text "ann") offer_doc) two_in_lab))
unfolding Set.contains Rooms.members text_cmp lookup
on_offer-delivers_example =
    on_offer-delivers J ann offer_doc [] (text "bob") (text "lab") two_in_lab
      two_in_lab-IsConsistent refl refl refl refl refl

on_event-IsConsistent_example : IsConsistent (on_message_close J (some ann) two_in_lab)
unfolding on_event
on_event-IsConsistent_example =
    on_event-IsConsistent J (Event.closed ann) two_in_lab refl two_in_lab-IsConsistent
