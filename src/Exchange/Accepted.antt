-- ===== src/Exchange/Accepted.antt =====
-- A file offer that is accepted, through both clients and the server, up to the file's last byte.
use cloud_node.Base.{
  length, nat_ord, Text, text, text_cmp, text_ord, pair_ord, ℕ, ◌+◌, ◌<◌, ◌≡◌, refl, ap, ◌∙◌, subst,
  true, none, some, List, [], ◌∷◌, ◌++◌,
}
use cloud_node.Base.Dict.{lookup}
use cloud_node.Json.{Json, IsLawful, pos, done}
use cloud_node.LocalDescription.{Base64}
use cloud_node.Rooms.{is_member}
use cloud_node.Router.{Kind, dispatch}
use cloud_node.Router.Laws.{message_router-protocol}
use cloud_node.Server.{Ws, Server, Event, on_event}
use cloud_node.Client.FilePath.{offered_name, destination}
use cloud_node.Client.State.{Client, Env, run}
use cloud_node.Client.Callbacks.{Callback, call}
use cloud_node.Client.Callbacks
use cloud_node.Client.Channel.{read_chunks}
use cloud_node.Client.Channel.Reading.{read_chunks-ends}
use cloud_node.Client.Incoming.Transfer.{deliver}
use cloud_node.Client.Offering.Delivery.{IsWhole}
use cloud_node.Client.Session.{file_queue, on_file_accept}
use cloud_node.Client.Session.Decisions.{waiting}
use cloud_node.Client.Sending.{Files, offer_details, offer_payload, send_file_offer}
use cloud_node.Client.Sending.Roundtrip.{send_file_offer-on_file_accept}
use cloud_node.Exchange.Documents.{
  IsOffer, IsAnswer, passed_on, retyped, without_peer, acceptance, passed_on-IsOffer,
  acceptance-IsAnswer, passed_on-IsAnswer,
}
use cloud_node.Exchange.Hops.{
  IsReady, crc_of, after, on_event-offer, on_event-acceptance, started, call-offer, started-IsWhole,
}

-- Both are members of the room, and the server has their sockets on file.
pub record AreTogether (a b : Ws) (room : Text) (s : Server) : Type 0 where
  pub a_in : is_member a.x_client_id room s.rooms ≡ true
  pub b_in : is_member b.x_client_id room s.rooms ≡ true
  pub a_filed : lookup a.x_client_id s.client_db ≡ some a
  pub b_filed : lookup b.x_client_id s.client_db ≡ some b

module _ (J : Json) (base64 : Base64) where
  -- What is written is read back, for the three documents that the exchange writes, and the erasures
  -- of `SendFileAccept` leave no `peer`.
  pub record AreReadBack (a b : Ws) (doc : J.Value) : Type 0 where
    pub offer :
        J.parse (J.write (passed_on J a.x_client_id doc)) ≡ some (passed_on J a.x_client_id doc)
    pub answer :
        J.parse (J.write (acceptance J a.x_client_id (passed_on J a.x_client_id doc)))
        ≡ some (acceptance J a.x_client_id (passed_on J a.x_client_id doc))
    pub answer_on :
        J.parse (
          J.write (
            passed_on J b.x_client_id (acceptance J a.x_client_id (passed_on J a.x_client_id doc))))
        ≡ some
            (passed_on J b.x_client_id (acceptance J a.x_client_id (passed_on J a.x_client_id doc)))
    pub erased :
        J.member? (text "peer") (
          without_peer J
            (without_peer J (retyped J (text "file_accept") (passed_on J a.x_client_id doc))))
        ≡ none

  -- The run of an exchange between two clients, `a` behind the environment `ea` and `b` behind `eb`:
  -- each text is what the party before has just sent, to the socket of the party after.
  pub record Exchanged (ea eb : Env) (files : Files) (a b : Ws) (uuid room path : Text) (size q : ℕ)
      (file destination : Text) (c d : Client) (s : Server) : Type 0 where
    pub asked : Text
    pub offer : Text
    pub answer : Text
    pub answer_on : Text
    pub waits : Client
    pub accepted : Client
    pub receives : Client
    pub passing : Server
    pub passed : Server
    pub chunks : List Text
    pub asks : send_file_offer ea files uuid room b.x_client_id path c ≡ (waits, true)
    pub asks_sent : waits.sent ≡ c.sent ++ asked ∷ []
    pub passes : on_event J (Event.message a asked) s ≡ done passing
    pub passes_sent : passing.sent ≡ s.sent ++ (b, offer) ∷ []
    pub answers : call J eb base64 (Callback.message offer) d ≡ done receives
    pub answers_sent : receives.sent ≡ d.sent ++ answer ∷ []
    pub returns : on_event J (Event.message b answer) passing ≡ done passed
    pub returns_sent : passed.sent ≡ passing.sent ++ (a, answer_on) ∷ []
    pub hears : call J ea base64 (Callback.message answer_on) waits ≡ done accepted
    -- The file's path is in the queue of the transfer thread, whose chunks make up the file.
    pub queued : waiting q accepted ≡ waiting q c ++ path ∷ []
    pub runs : accepted.state ≡ run
    pub reads : read_chunks (length file + 1) size file ≡ some chunks
    pub arrives :
        IsWhole J eb destination
          (a.x_client_id, room)
          file
          (deliver eb (a.x_client_id, room) chunks receives)

  call-acceptance :
      (env : Env) (doc file : J.Value) (uuid room peer name json : Text) (c : Client)
      → IsAnswer J (text "file_accept") doc file uuid room peer name
      → J.parse json ≡ some doc
      → call J env base64 (Callback.message json) c ≡ on_file_accept J env doc c
  unfolding call dispatch text_cmp lookup
  call-acceptance env doc file uuid room peer name json c o read =
      message_router-protocol J (Callbacks.handlers J env base64) json (text "file_accept")
        Kind.file_accept doc c read o.is_object o.has_type refl

  -- An offer of a file that is not empty, whose checks pass and whose message is taken, to a client
  -- that is in the room with the sender and ready for the file, in a server that has both on file,
  -- where every text is read as the document it was written from: the four messages of the exchange
  -- run to their ends, each as the party before sent it; then the path is in the file queue of the
  -- sender's channel and the sender runs; the file is read to its end in chunks of the given size, and
  -- with these chunks the receiver has exactly its bytes.
  pub file_offer-Exchanged :
      (L : IsLawful J) (ea eb : Env) (files : Files) (a b : Ws) (doc v : J.Value)
      (uuid room path details name mime_type : Text) (names : List Text) (size q : ℕ) (file : Text)
      (c d : Client) (s : Server)
      → 0 < size
      → 0 < length file
      → AreTogether a b room s
      → offer_details ea files room b.x_client_id path c ≡ some details
      → ea.takes (offer_payload ea uuid room b.x_client_id details) ≡ true
      → file_queue J ea (lookup (b.x_client_id, room) c.data_channels) ≡ some q
      → J.parse (offer_payload ea uuid room b.x_client_id details) ≡ some doc
      → IsOffer J doc v uuid room b.x_client_id name mime_type (pos (length file))
      → AreReadBack a b doc
      → offered_name name ≡ some names
      → IsReady J eb (destination eb.directory names) (a.x_client_id, room) (crc_of J v) d
      → eb.takes (J.write (acceptance J a.x_client_id (passed_on J a.x_client_id doc))) ≡ true
      → Exchanged ea eb files a b uuid room path size q file (destination eb.directory names) c d s
  file_offer-Exchanged L ea eb files a b doc v uuid room path details name mime_type names size q
        file c d s positive filled together details_had taken queue read o back named ready
        answer_taken =
      let from = a.x_client_id in
      let o1 = passed_on-IsOffer J L o from in
      let o2 = acceptance-IsAnswer J L o1 from back.erased in
      let o3 = passed_on-IsAnswer J L o2 b.x_client_id in
      let offered = passed_on J from doc in
      let answered = acceptance J from offered in
      let s1 = after J a b doc s in
      let e1 = started J eb offered (from, room) (destination eb.directory names) (length file) d in
      let (chunks, reads, whole, fit) = read_chunks-ends size file positive in
      let (waits, accepted, asks, sent, hears, queued, runs) =
        send_file_offer-on_file_accept J ea files (passed_on J b.x_client_id answered) uuid room
          b.x_client_id path details q c details_had taken o3.names_uuid queue in
      record {
        asked = offer_payload ea uuid room b.x_client_id details;
        offer = J.write offered;
        answer = J.write answered;
        answer_on = J.write (passed_on J b.x_client_id answered);
        waits = waits;
        accepted = accepted;
        receives = e1;
        passing = s1;
        passed = after J b a answered s1;
        chunks = chunks;
        asks = asks;
        asks_sent = sent;
        passes =
            on_event-offer J a b doc v uuid room b.x_client_id name _ s read together.a_in
              together.b_in together.b_filed o;
        passes_sent = refl;
        answers =
            call-offer J eb base64 offered v uuid room from name mime_type (length file) _ d o1
              back.offer names named filled ready answer_taken;
        answers_sent = refl;
        returns =
            on_event-acceptance J b a answered v uuid room from name _ s1 back.answer together.b_in
              together.a_in together.a_filed o2;
        returns_sent = refl;
        hears =
            call-acceptance ea (passed_on J b.x_client_id answered) v uuid room b.x_client_id name _
              waits o3 back.answer_on
            ∙ hears;
        queued = queued;
        runs = runs;
        reads = reads;
        arrives =
            subst
              (λ (t : Text).
                IsWhole J eb (destination eb.directory names) (from, room) t
                  (deliver eb (from, room) chunks e1))
              whole
              (started-IsWhole J eb base64 offered v uuid room from name mime_type (length file) _ d
                o1 back.offer names named filled ready answer_taken chunks (ap length whole));
      }
