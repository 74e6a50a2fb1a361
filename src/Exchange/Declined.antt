-- ===== src/Exchange/Declined.antt =====
-- A file offer that is declined, since the receiver has the file: through both clients and the server.
use cloud_node.Base.{
  ◌==◌, ==_refl, nat_ord, Text, text, text_cmp, text_ord, pair_ord, ℕ, ◌≡◌, refl, ap, ◌∙◌, true,
  false, Option, none, some, List, [], ◌∷◌, ◌++◌, arith,
}
use cloud_node.Base.Dict.{Dict, lookup, insert, erase, lookup-insert, lookup-erase}
use cloud_node.Json.{Json, IsLawful, pos, done}
use cloud_node.LocalDescription.{Base64}
use cloud_node.Router.{Kind, dispatch}
use cloud_node.Router.Laws.{message_router-protocol}
use cloud_node.Server.{Ws, Server, Event, on_event, send}
use cloud_node.Client.FilePath.{offered_name, destination}
use cloud_node.Client.State.{Client, Env, run, PendingOffer}
use cloud_node.Client.Callbacks.{Callback, call}
use cloud_node.Client.Callbacks
use cloud_node.Client.Session.{on_file_reject}
use cloud_node.Client.Session.Decisions.{on_file_reject-once}
use cloud_node.Client.Offering.{
  Offer, on_file_offer, on_offered, received_as, file_reject, send_file_reject, receive_at,
  same_crc,
}
use cloud_node.Client.Sending.{Files, offer_details, offer_payload, send_file_offer}
use cloud_node.Client.Sending.Roundtrip.{asking, send_file_offer-asking}
use cloud_node.Exchange.Documents.{
  IsOffer, IsAnswer, passed_on, retyped, without_peer, rejection, passed_on-IsOffer,
  rejection-IsAnswer, passed_on-IsAnswer,
}
use cloud_node.Exchange.Hops.{
  crc_of, after, offer_from, on_event-offer, on_event-rejection, call-on_file_offer,
  offer_of-IsOffer,
}
use cloud_node.Exchange.Accepted.{AreTogether}

module _ (J : Json) (base64 : Base64) where
  -- What is written is read back, for the three documents that the exchange writes, and the erasure of
  -- `SendFileReject` leaves no `peer`.
  pub record AreReadBack (a b : Ws) (doc : J.Value) : Type 0 where
    pub offer :
        J.parse (J.write (passed_on J a.x_client_id doc)) ≡ some (passed_on J a.x_client_id doc)
    pub answer :
        J.parse (J.write (rejection J a.x_client_id (passed_on J a.x_client_id doc)))
        ≡ some (rejection J a.x_client_id (passed_on J a.x_client_id doc))
    pub answer_on :
        J.parse (
          J.write
            (passed_on J b.x_client_id (rejection J a.x_client_id (passed_on J a.x_client_id doc))))
        ≡ some
            (passed_on J b.x_client_id (rejection J a.x_client_id (passed_on J a.x_client_id doc)))
    pub erased :
        J.member?
          (text "peer")
          (without_peer J (retyped J (text "file_reject") (passed_on J a.x_client_id doc)))
        ≡ none

  -- The run of an exchange that is declined: each text is what the party before has just sent, to the
  -- socket of the party after. The receiver and the server have only sent their message. The sender
  -- runs, has sent its offer and does not track it; so no file is queued.
  pub record Declined (ea eb : Env) (files : Files) (a b : Ws) (uuid room path : Text)
      (c d : Client) (s : Server) : Type 0 where
    pub asked : Text
    pub offer : Text
    pub answer : Text
    pub answer_on : Text
    pub waits : Client
    pub pending : Dict Text PendingOffer
    pub asks : send_file_offer ea files uuid room b.x_client_id path c ≡ (waits, true)
    pub asks_sent : waits.sent ≡ c.sent ++ asked ∷ []
    pub passes : on_event J (Event.message a asked) s ≡ done (send b offer s)
    pub answers :
        call J eb base64 (Callback.message offer) d
        ≡ done (record d { sent = d.sent ++ answer ∷ [] })
    pub returns :
        on_event J (Event.message b answer) (send b offer s)
        ≡ done (send a answer_on (send b offer s))
    pub hears :
        call J ea base64 (Callback.message answer_on) waits
        ≡ done (record c { sent = c.sent ++ asked ∷ []; state = run; pending_offers = pending })
    pub forgotten : lookup uuid pending ≡ none
    pub others : (k : Text) → (k == uuid) ≡ false → lookup k pending ≡ lookup k c.pending_offers

  call-rejection :
      (env : Env) (doc file : J.Value) (uuid room peer name json : Text) (c : Client)
      → IsAnswer J (text "file_reject") doc file uuid room peer name
      → J.parse json ≡ some doc
      → call J env base64 (Callback.message json) c ≡ on_file_reject J env doc c
  unfolding call dispatch text_cmp lookup
  call-rejection env doc file uuid room peer name json c o read =
      message_router-protocol J (Callbacks.handlers J env base64) json (text "file_reject")
        Kind.file_reject doc c read o.is_object o.has_type refl

  call-declined :
      (env : Env) (doc file : J.Value) (uuid room from name mime_type : Text) (m : ℕ)
      (names : List Text) (json : Text) (c : Client)
      → IsOffer J doc file uuid room from name mime_type (pos m)
      → J.parse json ≡ some doc
      → offered_name name ≡ some names
      → env.prepares (destination env.directory names) ≡ true
      → same_crc J env (crc_of J file) (env.crc (destination env.directory names)) ≡ true
      → env.takes (J.write (rejection J from doc)) ≡ true
      → call J env base64 (Callback.message json) c
        ≡ done (record c { sent = c.sent ++ J.write (rejection J from doc) ∷ [] })
  unfolding on_file_offer receive_at send_file_reject file_reject
  call-declined env doc file uuid room from name mime_type m names json c o read named p n t =
      call-on_file_offer J env base64 doc file uuid room from name mime_type m json c o read
      ∙ ap (λ (x : Option Offer). done (on_offered J env doc x c))
          (offer_of-IsOffer J env base64 doc file uuid room from name mime_type m json c o read)
      ∙ ap
          (λ (x : Option (List Text)).
            done (received_as J env doc (offer_from J file from room name m) x c))
          named
      ∙ ground (arith, p, n, t, o.names_peer, o.names_uuid)

  -- An offer that passes its checks and whose message is taken, to a client in the same room that has the
  -- file with the CRC that is offered, in a server that has both on file, where every text is read as the
  -- document it was written from: the receiver rejects it and changes nothing; the sender runs, with all
  -- as before the offer but for the message it sent, and any offer of that identifier is forgotten.
  pub file_offer-Declined :
      (L : IsLawful J) (ea eb : Env) (files : Files) (a b : Ws) (doc v : J.Value)
      (uuid room path details name mime_type : Text) (names : List Text) (m : ℕ) (c d : Client)
      (s : Server)
      → AreTogether a b room s
      → offer_details ea files room b.x_client_id path c ≡ some details
      → ea.takes (offer_payload ea uuid room b.x_client_id details) ≡ true
      → J.parse (offer_payload ea uuid room b.x_client_id details) ≡ some doc
      → IsOffer J doc v uuid room b.x_client_id name mime_type (pos m)
      → AreReadBack a b doc
      → offered_name name ≡ some names
      → eb.prepares (destination eb.directory names) ≡ true
      → same_crc J eb (crc_of J v) (eb.crc (destination eb.directory names)) ≡ true
      → eb.takes (J.write (rejection J a.x_client_id (passed_on J a.x_client_id doc))) ≡ true
      → Declined ea eb files a b uuid room path c d s
  file_offer-Declined L ea eb files a b doc v uuid room path details name mime_type names m c d s
        together details_had taken read o back named prepared same answer_taken =
      let from = a.x_client_id in
      let o1 = passed_on-IsOffer J L o from in
      let o2 = rejection-IsAnswer J L o1 from back.erased in
      let o3 = passed_on-IsAnswer J L o2 b.x_client_id in
      let offered = passed_on J from doc in
      let answered = rejection J from offered in
      let s1 = after J a b doc s in
      let offer : PendingOffer = record { key = (b.x_client_id, room); path = path } in
      let waits = asking J ea files uuid room b.x_client_id path details c in
      let tracked : lookup uuid waits.pending_offers ≡ some offer =
        ground (arith, ==_refl uuid, lookup-insert uuid uuid offer c.pending_offers) in
      let (e, rejected, same_but, again) =
        on_file_reject-once J ea (passed_on J b.x_client_id answered) uuid offer waits o3.names_uuid
          tracked in
      record {
        asked = offer_payload ea uuid room b.x_client_id details;
        offer = J.write offered;
        answer = J.write answered;
        answer_on = J.write (passed_on J b.x_client_id answered);
        waits = waits;
        pending = erase uuid (insert uuid offer c.pending_offers);
        asks =
            send_file_offer-asking J ea files uuid room b.x_client_id path details c details_had
              taken;
        asks_sent = refl;
        passes =
            on_event-offer J a b doc v uuid room b.x_client_id name _ s read together.a_in
              together.b_in together.b_filed o;
        answers =
            call-declined eb offered v uuid room from name mime_type m names _ d o1 back.offer named
              prepared same answer_taken;
        returns =
            on_event-rejection J b a answered v uuid room from name _ s1 back.answer together.b_in
              together.a_in together.a_filed o2;
        hears =
            call-rejection ea (passed_on J b.x_client_id answered) v uuid room b.x_client_id name _
              waits o3 back.answer_on
            ∙ rejected
            ∙ ap (λ (x : Client). done x) same_but;
        forgotten =
            ground
              (arith, ==_refl uuid, lookup-erase uuid uuid (insert uuid offer c.pending_offers));
        others = λ k n. ground (
          arith,
          n,
          lookup-erase k uuid (insert uuid offer c.pending_offers),
          lookup-insert k uuid offer c.pending_offers,
        );
      }
