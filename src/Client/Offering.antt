-- ===== src/Client/Offering.antt =====
-- A file offer as the receiver handles it: `OnFileOffer`, `SendFileAccept` and `SendFileReject`.
pub mod Outcome
pub mod Delivery
use cloud_node.Base.{
  ◌>>=◌, text_ord, pair_ord, nat_ord, if◌then◌else◌, ◌==◌, Text, text, ℕ, Bool, false, Option, none,
  some, List, [], ◌∷◌, ◌++◌,
}
use cloud_node.Base.Dict.{lookup}
use cloud_node.Json.{Json, Run, done, ℤ, string_member, object_member}
use cloud_node.Client.FilePath.{offered_name, destination}
use cloud_node.Client.State.{Key, IncomingFile, Client, Env, send_message}
use cloud_node.Client.Incoming.{start_next_incoming, put_queue, put_started}

-- What an offer says: whom the file is from, the room, its name and size, and its CRC.
pub record Offer : Type 0 where
  pub peer : Text
  pub room : Text
  pub name : Text
  pub size : ℤ
  pub crc : Option ℕ

module _ (J : Json) (env : Env) where
  unfoldable pub offer_of : J.Value → Option Offer
  offer_of doc = do
    peer ← string_member J (text "peer") doc
    room ← string_member J (text "room") doc
    file ← object_member J (text "file") doc
    name ← string_member J (text "name") file
    size ← J.member? (text "size") file >>= J.int64?
    mime_type ← string_member J (text "mimeType") file
    some (record {
      peer = peer;
      room = room;
      name = name;
      size = size;
      crc = J.member? (text "crc") file >>= J.uint64?;
    })

  abbrev try_send : Text → Client → Client
  try_send message c = if env.takes message then send_message message c else c

  -- The answer is the offer with another type, and its `peer` put at the end.
  unfoldable pub file_accept : J.Value → Text → Text
  file_accept doc peer = J.write (
      J.add (text "peer") (J.string peer) (
        J.erase (text "peer")
          (J.erase (text "peer") (J.set_string (text "type") (text "file_accept") doc))))

  unfoldable pub file_reject : J.Value → Text → Text
  file_reject doc peer = J.write (
      J.add (text "peer") (J.string peer)
        (J.erase (text "peer") (J.set_string (text "type") (text "file_reject") doc)))

  unfoldable pub send_file_accept : J.Value → Client → Client
  send_file_accept doc c = elim (string_member J (text "peer") doc) [
    | none ↦ c
    | some peer ↦ try_send (file_accept doc peer) c
  ]

  unfoldable pub send_file_reject : J.Value → Client → Client
  send_file_reject doc c = elim (string_member J (text "peer") doc) [
    | none ↦ c
    | some peer ↦ elim (string_member J (text "uuid") doc) [
      | none ↦ c
      | some uuid ↦ try_send (file_reject doc peer) c
    ]
  ]

  abbrev pub queue_of : Option (List IncomingFile) → List IncomingFile
  queue_of none = []
  queue_of (some q) = q

  abbrev pub appended : Key → IncomingFile → List IncomingFile → Client → Client
  appended key f [] c =
      put_started env key (start_next_incoming env (f ∷ []) c.received_paths c.disk) c
  appended key f (g ∷ q) c = record c {
    incoming_files = put_queue env key ((g ∷ q) ++ f ∷ []) c.incoming_files;
  }

  -- The file joins the queue of its sender and room, and is started if it is alone there.
  unfoldable pub enqueue_incoming : Key → Text → ℤ → Client → Client
  enqueue_incoming key path size c =
      appended key
        (record { destination = path; expected_size = size; is_open = false; written = 0 })
        (queue_of (lookup key c.incoming_files)) c

  -- The file is there already, with the CRC that is offered.
  abbrev pub same_crc : Option ℕ → Option ℕ → Bool
  same_crc (some a) (some b) = a == b
  same_crc _ _ = false

  unfoldable pub receive_at : J.Value → Offer → Text → Client → Client
  receive_at doc offer path c =
      if env.prepares path
      then (if same_crc offer.crc (env.crc path)
          then send_file_reject doc c
          else send_file_accept doc (enqueue_incoming (offer.peer, offer.room) path offer.size c))
      else c

  abbrev pub received_as : J.Value → Offer → Option (List Text) → Client → Client
  received_as doc offer none c = c
  received_as doc offer (some names) c = receive_at doc offer (destination env.directory names) c

  abbrev pub on_offered : J.Value → Option Offer → Client → Client
  on_offered doc none c = c
  on_offered doc (some offer) c = received_as doc offer (offered_name offer.name) c

  unfoldable pub on_file_offer : J.Value → Client → Run Client
  on_file_offer doc c = done (on_offered doc (offer_of doc) c)
