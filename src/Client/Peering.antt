-- ===== src/Client/Peering.antt =====
-- src/WebRTCClient.cpp: the descriptions and candidates that peers exchange: `MakePeerConnection`,
-- `OnOffer`, `OnAnswer` and `OnCandidate`. What a peer connection does with a call is the rtc
-- library's.
pub mod Answering
use cloud_node.Base.{
  if◌then◌else◌, ◌>>=◌, ◌==◌, nat_ord, Text, text, text_ord, pair_ord, ℕ, suc, ◌+◌, ◌-◌, ◌%◌, ◌^◌,
  ◌<◌, ◌≤◌, arith, Bool, true, false, ◌&&◌, Option, none, some, List, [], ◌∷◌, ◌++◌,
}
use cloud_node.Base.Dict.{lookup, insert}
use cloud_node.Base.Decimal.{decimal}
use cloud_node.Json.{ℤ, pos, negsuc, Json, Run, done, fault, string_member, array_member}
use cloud_node.LocalDescription.{Base64, base64_encode, base64_decode}
use cloud_node.Client.State.{
  Key, Client, Env, send_message, RtcCall, set_remote_description, create_answer,
  add_remote_candidate,
}
use cloud_node.Client.Sending.{find_peer_connection}

abbrev starts_with : Text → Text → Bool
starts_with [] t = true
starts_with (a ∷ s) [] = false
starts_with (a ∷ s) (b ∷ t) = a == b && starts_with s t

-- The server that `MakePeerConnection` puts into the configuration, for a port that is not negative.
unfoldable pub stun_server : Text → ℕ → Text
stun_server address port =
    (if starts_with (text "stun:") address then [] else text "stun:")
    ++ (address ++ (b':' ∷ decimal port))

-- `static_cast<size_t>` of the option, with a `size_t` of 64 bits
unfoldable pub message_size : ℤ → ℕ
message_size (pos n) = n % 2 ^ 64
message_size (negsuc n) = 2 ^ 64 - suc (n % 2 ^ 64)

-- A negative `int` becomes a size of at least 2 ^ 63.
message_size-negsuc : (n : ℕ) → n < 2 ^ 31 → 2 ^ 63 ≤ message_size (negsuc n)
unfolding message_size
message_size-negsuc n small = omega arith

-- The messages of the callbacks that `OnOffer` sets.
unfoldable pub candidate_payload : Text → Text → Text → Text → Text
candidate_payload peer room candidate mid =
    text "{ \"type\" : \"candidate\", \"peer\" : \""
    ++ (peer
        ++ (text "\", \"room\" : \""
            ++ (room
                ++ (text "\", \"candidate\" : \""
                    ++ (candidate ++ (text "\", \"mid\" : \"" ++ (mid ++ text "\"}")))))))

unfoldable pub description_payload : Text → Text → Text → Text → Text
description_payload type peer room encoded =
    text "{ \"type\" : \""
    ++ (type
        ++ (text "\", \"peer\" : \""
            ++ (peer
                ++ (text "\", \"room\" : \""
                    ++ (room ++ (text "\", \"sdp\" : \"" ++ (encoded ++ text "\"}")))))))

abbrev called : RtcCall → Client → Client
called call c = record c { calls = c.calls ++ call ∷ [] }

module _ (env : Env) (base64 : Base64) where
  abbrev try_send : Text → Client → Client
  try_send message c = if env.takes message then send_message message c else c

  -- `onLocalCandidate` and `onLocalDescription` of a connection that answers
  unfoldable pub on_local_candidate : Key → Text → Text → Client → Client
  unfolding candidate_payload
  on_local_candidate (peer, room) candidate mid c =
      try_send (candidate_payload peer room candidate mid) c

  unfoldable pub on_local_description : Key → Text → Text → Client → Client
  unfolding description_payload
  on_local_description (peer, room) description type c = elim (base64_encode base64 description) [
    | none ↦ c
    | some encoded ↦ try_send (description_payload type peer room encoded) c
  ]

  -- `onDataChannel`, with the channel's name
  unfoldable pub on_data_channel : Key → ℕ → Client → Client
  on_data_channel key channel c = elim (lookup key c.incoming_channels) [
    | none ↦ c
    | some d ↦ record c {
      incoming_channels = insert key (record d { channel = some channel }) c.incoming_channels;
    }
  ]

  module _ (J : Json) where
    abbrev or_else : Option Text → Text → Text
    or_else none t = t
    or_else (some s) t = s

    -- The connection that an answer or a candidate is for.
    unfoldable pub addressee : J.Value → Client → Option ℕ
    addressee doc c =
        find_peer_connection (or_else (string_member J (text "peer") doc) [])
          (or_else (string_member J (text "room") doc) c.room) c

    abbrev or_stay : Option Client → Client → Client
    or_stay none c = c
    or_stay (some d) c = d

    -- `OnAnswer`
    unfoldable pub on_answer : J.Value → Client → Run Client
    unfolding addressee
    on_answer doc c = done (
        or_stay
          (do
            pc ← addressee doc c
            sdp ← string_member J (text "sdp") doc
            description ← base64_decode base64 sdp
            some (called (set_remote_description pc description (text "answer")) c))
          c)

    -- `OnCandidate`
    unfoldable pub on_candidate : J.Value → Client → Run Client
    unfolding addressee
    on_candidate doc c = done (
        or_stay
          (do
            pc ← addressee doc c
            candidate ← string_member J (text "candidate") doc
            mid ← string_member J (text "mid") doc
            some (called (add_remote_candidate pc candidate mid) c))
          c)

    -- The connection and the queue of an incoming channel, under fresh names.
    unfoldable pub answering : Key → Client → Client
    answering key c = record c {
      incoming_channels =
          insert key
            (record {
              pc = some c.fresh;
              channel = none;
              file_q = some (c.fresh + 1);
              decision_closed = false;
            })
            c.incoming_channels;
      queues = insert (c.fresh + 1) [] c.queues;
      fresh = c.fresh + 2;
    }

    abbrev pub described : ℕ → Option Text → Client → Client
    described pc none c = c
    described pc (some sdp) c =
        called (create_answer pc) (called (set_remote_description pc sdp (text "offer")) c)

    -- `doc["descriptions"][0].GetString()`, of a first item that need not be there or be a string
    unfoldable pub set_description : ℕ → Option (List J.Value) → Client → Run Client
    set_description pc none c = done c
    set_description pc (some []) c = fault
    set_description pc (some (v ∷ vs)) c = elim (J.string? v) [
      | none ↦ fault
      | some encoded ↦ done (described pc (base64_decode base64 encoded) c)
    ]

    abbrev pub candidate_added : ℕ → Option Text → Client → Client
    candidate_added pc none c = c
    candidate_added pc (some candidate) c = called (add_remote_candidate pc candidate (text "0")) c

    -- The loop over `doc["candidates"]`
    unfoldable pub add_candidates : ℕ → List J.Value → Client → Run Client
    add_candidates pc [] c = done c
    add_candidates pc (v ∷ vs) c = elim (J.string? v) [
      | none ↦ fault
      | some encoded ↦ add_candidates pc vs (candidate_added pc (base64_decode base64 encoded) c)
    ]

    abbrev pub all_candidates : ℕ → Option (List J.Value) → Client → Run Client
    all_candidates pc none c = done c
    all_candidates pc (some values) c = add_candidates pc values c

    abbrev pub and_then : Run Client → (Client → Run Client) → Run Client
    and_then fault f = fault
    and_then (done c) f = f c

    abbrev pub offer_key : J.Value → Option Key
    offer_key doc = do
      peer ← string_member J (text "peer") doc
      room ← string_member J (text "room") doc
      some (peer, room)

    abbrev pub answer_offer : J.Value → Option Key → Client → Run Client
    answer_offer doc none c = done c
    answer_offer doc (some key) c =
        and_then
          (set_description c.fresh (array_member J (text "descriptions") doc) (answering key c))
          (all_candidates c.fresh (array_member J (text "candidates") doc))

    -- `OnOffer`
    unfoldable pub on_offer : J.Value → Client → Run Client
    unfolding set_description add_candidates answering
    on_offer doc c = answer_offer doc (offer_key doc) c
