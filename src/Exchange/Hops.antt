-- ===== src/Exchange/Hops.antt =====
-- The steps of an exchange: what the server does with the offer and with the acceptance, and what the
-- receiver does with the offer.
use cloud_node.Base.{
  ◌>>=◌, length, nat_ord, Text, text, text_cmp, text_ord, pair_ord, ℕ, ◌<◌, ◌≡◌, refl, sym, ◌∙◌,
  subst, true, false, Option, none, some, List, [], ◌∷◌, ◌++◌, arith,
}
use cloud_node.Base.Dict.{lookup}
use cloud_node.Json.{string_member, Json, ℤ, pos, done}
use cloud_node.LocalDescription.{Base64}
use cloud_node.Rooms.{is_member}
use cloud_node.Router.{Kind, dispatch}
use cloud_node.Router.Laws.{message_router-protocol, done_inj}
use cloud_node.Server.{Ws, Server, Event, on_event, send, handlers}
use cloud_node.Server.Sharing.{
  IsAddressed, on_file_offer-sends, on_file_accept-sends, on_file_reject-sends,
}
use cloud_node.Client.FilePath.{offered_name, destination}
use cloud_node.Client.State.{Key, Client, Env}
use cloud_node.Client.Callbacks.{Callback, call}
use cloud_node.Client.Callbacks
use cloud_node.Client.Incoming.Transfer.{deliver, concat}
use cloud_node.Client.Offering.{
  Offer, offer_of, same_crc, send_file_accept, file_accept, on_file_offer,
}
use cloud_node.Client.Offering.Delivery.{
  IsWhole, opened, on_file_offer-opened, on_file_offer-deliver,
}
use cloud_node.Exchange.Documents.{IsOffer, IsAnswer, passed_on, acceptance}

module _ (J : Json) where
  -- The server when it has passed a document on.
  abbrev pub after : Ws → Ws → J.Value → Server → Server
  after ws to doc s = send to (J.write (passed_on J ws.x_client_id doc)) s

  module _ (ws to : Ws) (doc file : J.Value) (uuid room peer name : Text) (json : Text) (s : Server)
      (read : J.parse json ≡ some doc) (sender_in : is_member ws.x_client_id room s.rooms ≡ true)
      (peer_in : is_member peer room s.rooms ≡ true)
      (socket : lookup peer s.client_db ≡ some to) where
    addressed :
        string_member J (text "peer") doc ≡ some peer
        → string_member J (text "room") doc ≡ some room
        → IsAddressed J ws to doc peer room s
    addressed p r = record {
      names_peer = p;
      names_room = r;
      sender_in = sender_in;
      peer_in = peer_in;
      socket = socket;
    }

    pub on_event-offer :
        {mime_type : Text} {size : ℤ}
        → IsOffer J doc file uuid room peer name mime_type size
        → on_event J (Event.message ws json) s ≡ done (after ws to doc s)
    unfolding on_event dispatch text_cmp lookup
    on_event-offer o =
        message_router-protocol J (handlers J (some ws)) json (text "file_offer") Kind.file_offer
          doc s read o.is_object o.type refl
        ∙ on_file_offer-sends J ws to doc file peer room s (addressed o.names_peer o.names_room)
            (ground (arith, o.names_file, o.file_name, o.file_size, o.file_type))

    pub on_event-acceptance :
        IsAnswer J (text "file_accept") doc file uuid room peer name
        → on_event J (Event.message ws json) s ≡ done (after ws to doc s)
    unfolding on_event dispatch text_cmp lookup
    on_event-acceptance o =
        message_router-protocol J (handlers J (some ws)) json (text "file_accept") Kind.file_accept
          doc s read o.is_object o.has_type refl
        ∙ on_file_accept-sends J ws to doc file peer room s (addressed o.names_peer o.names_room)
            (ground (arith, o.names_file, o.file_name))

    pub on_event-rejection :
        IsAnswer J (text "file_reject") doc file uuid room peer name
        → on_event J (Event.message ws json) s ≡ done (after ws to doc s)
    unfolding on_event dispatch text_cmp lookup
    on_event-rejection o =
        message_router-protocol J (handlers J (some ws)) json (text "file_reject") Kind.file_reject
          doc s read o.is_object o.has_type refl
        ∙ on_file_reject-sends J ws to doc file peer room s (addressed o.names_peer o.names_room)
            (ground (arith, o.names_file, o.file_name))

  -- The receiver: what it has to have for the file, and what the offer says.
  pub record IsReady (env : Env) (path : Text) (key : Key) (crc : Option ℕ) (c : Client)
      : Type 0 where
    pub prepares : env.prepares path ≡ true
    pub other_crc : same_crc J env crc (env.crc path) ≡ false
    pub lockable : env.lockable path ≡ true
    pub openable : env.openable path ≡ true
    pub writable : env.writable path ≡ true
    pub no_other : lookup key c.incoming_files ≡ none

  abbrev pub crc_of : J.Value → Option ℕ
  crc_of file = J.member? (text "crc") file >>= J.uint64?

  -- The receiver when it has opened the file and answered.
  abbrev pub started : Env → J.Value → Key → Text → ℕ → Client → Client
  started env doc key path m c =
      let d = opened J env key path m c in
      record d { sent = c.sent ++ J.write (acceptance J key.0 doc) ∷ [] }

  -- What a receiver reads of an offer.
  abbrev pub offer_from : J.Value → Text → Text → Text → ℕ → Offer
  offer_from file from room name m = record {
    peer = from;
    room = room;
    name = name;
    size = pos m;
    crc = crc_of file;
  }

  module _ (env : Env) (base64 : Base64) (doc file : J.Value) (uuid room from name mime_type : Text)
      (m : ℕ) (json : Text) (c : Client)
      (o : IsOffer J doc file uuid room from name mime_type (pos m))
      (read : J.parse json ≡ some doc) where
    pub offer_of-IsOffer : offer_of J env doc ≡ some (offer_from file from room name m)
    unfolding offer_of
    offer_of-IsOffer =
        ground
          (arith, o.names_peer, o.names_room, o.names_file, o.file_name, o.file_size, o.file_type)

    pub call-on_file_offer : call J env base64 (Callback.message json) c ≡ on_file_offer J env doc c
    unfolding call dispatch text_cmp lookup
    call-on_file_offer =
        message_router-protocol J (Callbacks.handlers J env base64) json (text "file_offer")
          Kind.file_offer doc c read o.is_object o.type refl

    module _ (names : List Text) (named : offered_name name ≡ some names) (positive : 0 < m)
        (ready : IsReady env (destination env.directory names) (from, room) (crc_of file) c)
        (takes : env.takes (J.write (acceptance J from doc)) ≡ true) where
      abbrev begun : Client
      begun = started env doc (from, room) (destination env.directory names) m c

      pub call-offer : call J env base64 (Callback.message json) c ≡ done begun
      unfolding send_file_accept file_accept
      call-offer =
          call-on_file_offer
          ∙ on_file_offer-opened J env doc (offer_from file from room name m) names m c
              (offer_of-IsOffer) named refl positive ready.no_other ready.prepares ready.other_crc
              ready.lockable ready.openable
          ∙ ground (arith, o.names_peer, takes)

      pub started-IsWhole :
          (chunks : List Text)
          → length (concat chunks) ≡ m
          → IsWhole J env
              (destination env.directory names)
              (from, room)
              (concat chunks)
              (deliver env (from, room) chunks begun)
      started-IsWhole chunks e =
          let (d, h, r) =
            on_file_offer-deliver J env doc (offer_from file from room name m) names m chunks c
              (offer_of-IsOffer) named refl positive e ready.no_other ready.prepares ready.other_crc
              ready.lockable ready.openable ready.writable in
          subst
            (λ (d : Client).
              IsWhole J env (destination env.directory names) (from, room) (concat chunks)
                (deliver env (from, room) chunks d))
            (done_inj (sym h ∙ sym (call-on_file_offer) ∙ call-offer)) r
