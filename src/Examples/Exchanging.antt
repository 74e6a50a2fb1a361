-- ===== src/Examples/Exchanging.antt =====
-- Over the server: a file of three bytes from ann to bob, one that bob has, and a join of cy.
use cloud_node.Base.{
  if◌then◌else◌, ◌==◌, nat_ord, Text, text, text_cmp, text_ord, pair_ord, ◌≡◌, refl, true, Option,
  none, some, [], ◌∷◌, ◌++◌, arith,
}
use cloud_node.Base.Dict.{lookup}
use cloud_node.Base.Set
use cloud_node.Json.{Json, pos, done}
use cloud_node.Json.Values.{Val, Fields, get_member, get_string, values, values-IsLawful}
use cloud_node.Rooms.{members}
use cloud_node.Client.State.{Client, Env, is_ready}
use cloud_node.Client.Specs.{split}
use cloud_node.Client.FilePath.{filenames, resolve, normal, offered_name, joined, destination}
use cloud_node.Client.Sending.{offer_details, offer_payload, join_room, c_str}
use cloud_node.Exchange.Documents.{passed_on, acceptance, rejection}
use cloud_node.Exchange.Declined.{Declined, file_offer-Declined}
use cloud_node.Exchange.Joined.{join_request, Hears, join_room-Hears}
use cloud_node.Server.{Server, Event, on_event, notification}
use cloud_node.Server.Announce.{Announced}
use cloud_node.Exchange.Accepted.{Exchanged, file_offer-Exchanged}
use cloud_node.Examples.Fixtures.{
  files, ann, bob, cy, two_in_lab, two_in_lab-IsConsistent, env, client,
}
use cloud_node.Examples.Peers.{base64}

abbrev file : Val
file = Val.obj (
    Fields.field (text "name") (Val.str (text "a")) (
      Fields.field (text "size") (Val.num (pos 3))
        (Fields.field (text "mimeType") (Val.str (text "text")) Fields.end)))

abbrev offer_with : Val → Val
offer_with f = Val.obj (
    Fields.field (text "type") (Val.str (text "file_offer")) (
      Fields.field (text "uuid") (Val.str (text "u1")) (
        Fields.field (text "room") (Val.str (text "lab")) (
          Fields.field (text "peer") (Val.str (text "bob"))
            (Fields.field (text "file") f Fields.end)))))

abbrev offer : Val
offer = offer_with file

abbrev text_of : Option Val → Text
text_of none = []
text_of (some v) = elim (get_string v) [ none ↦ [] | some t ↦ t ]

-- A document is written as its type and its peer.
abbrev written : Val → Text
written v = text_of (get_member (text "type") v) ++ text_of (get_member (text "peer") v)

abbrev blind : Json
blind = values (λ _. none) written

abbrev offer_on : Val
offer_on = passed_on blind (text "ann") offer

abbrev answer : Val
answer = acceptance blind (text "ann") offer_on

abbrev payload : Text
payload = offer_payload env (text "u1") (text "lab") (text "bob") (text "{}")

abbrev reading : Text → Option Val
reading t =
    if t == text "file_offerann"
    then some offer_on
    else if t == text "file_acceptann"
    then some answer
    else if t == text "file_acceptbob"
    then some (passed_on blind (text "bob") answer)
    else some offer

abbrev J : Json
J = values reading written

file_offer-Exchanged_example :
    Exchanged J base64 env
      (record env { name = text "bob" })
      files
      ann
      bob
      (text "u1")
      (text "lab")
      (text "b")
      2
      7
      (text "xyz")
      (text "in/a")
      client
      client
      two_in_lab
unfolding offer_details is_ready members Set.contains lookup text_cmp offered_name normal filenames
    resolve split destination joined offer_payload
file_offer-Exchanged_example =
    file_offer-Exchanged J base64 (values-IsLawful reading written) env
      (record env { name = text "bob" }) files ann bob offer file (text "u1") (text "lab")
      (text "b") (text "{}") (text "a") (text "text") (text "a" ∷ []) 2 7 (text "xyz") client client
      two_in_lab (omega arith) (omega arith)
      (record { a_in = refl; b_in = refl; a_filed = refl; b_filed = refl }) refl refl refl refl
      (record {
        is_object = refl;
        type = refl;
        names_uuid = refl;
        names_room = refl;
        names_peer = refl;
        names_file = refl;
        file_name = refl;
        file_size = refl;
        file_type = refl;
      })
      (record { offer = refl; answer = refl; answer_on = refl; erased = refl }) refl
      (record {
        prepares = refl;
        other_crc = refl;
        lockable = refl;
        openable = refl;
        writable = refl;
        no_other = refl;
      })
      refl

-- The same file with a CRC, which bob has.
abbrev known : Val
known = Val.obj (
    Fields.field (text "name") (Val.str (text "a")) (
      Fields.field (text "size") (Val.num (pos 3)) (
        Fields.field (text "mimeType") (Val.str (text "text"))
          (Fields.field (text "crc") (Val.num (pos 5)) Fields.end))))

abbrev known_on : Val
known_on = passed_on blind (text "ann") (offer_with known)

abbrev refusal : Val
refusal = rejection blind (text "ann") known_on

abbrev reading_known : Text → Option Val
reading_known t =
    if t == text "file_offerann"
    then some known_on
    else if t == text "file_rejectann"
    then some refusal
    else if t == text "file_rejectbob"
    then some (passed_on blind (text "bob") refusal)
    else some (offer_with known)

file_offer-Declined_example :
    Declined
      (values reading_known written)
      base64
      env
      (record env { name = text "bob"; crc = λ _. some 5 })
      files
      ann
      bob
      (text "u1")
      (text "lab")
      (text "b")
      client
      client
      two_in_lab
unfolding offer_details is_ready members Set.contains lookup text_cmp offered_name normal filenames
    resolve split destination joined offer_payload
file_offer-Declined_example =
    file_offer-Declined (values reading_known written) base64
      (values-IsLawful reading_known written) env
      (record env { name = text "bob"; crc = λ _. some 5 }) files ann bob (offer_with known) known
      (text "u1") (text "lab") (text "b") (text "{}") (text "a") (text "text") (text "a" ∷ []) 3
      client client two_in_lab (record { a_in = refl; b_in = refl; a_filed = refl; b_filed = refl })
      refl refl refl
      (record {
        is_object = refl;
        type = refl;
        names_uuid = refl;
        names_room = refl;
        names_peer = refl;
        names_file = refl;
        file_name = refl;
        file_size = refl;
        file_type = refl;
      })
      (record { offer = refl; answer = refl; answer_on = refl; erased = refl }) refl refl refl refl

-- What the room is told of cy, who asks to join it.
abbrev news : Val
news =
    notification blind (text "peer_joined") (text "cy") (text "lab")
      (Set.insert (text "cy") (members (text "lab") two_in_lab.rooms))

abbrev reading_join : Text → Option Val
reading_join t = if t == text "join" then some (join_request blind (text "lab")) else some news

abbrev hearing : Json
hearing = values reading_join written

join_room-Hears_example :
    let peers = Set.insert (text "cy") (members (text "lab") two_in_lab.rooms) in
    (d : Client) × (t : Server) × (join_room
        (record env { name = text "cy" })
        hearing
        (text "lab")
        client
      ≡ (d, true))
    × (d.sent ≡ client.sent ++ text "join" ∷ [])
    × (on_event hearing (Event.message cy (text "join")) two_in_lab ≡ done t)
    × Announced hearing (text "peer_joined") (text "cy") (text "lab") peers peers two_in_lab t
    × ((e : Env) (x : Client)
        → Hears hearing base64 e (text "cy") (text "lab") (text "peer_joined") t x)
unfolding members Set.contains lookup text_cmp c_str notification
join_room-Hears_example =
    join_room-Hears hearing (values-IsLawful reading_join written) base64
      (record env { name = text "cy" }) cy (text "lab") client two_in_lab two_in_lab-IsConsistent
      refl refl refl refl refl
