-- ===== src/Router.antt =====
-- include/WebRTC.hpp: the dispatch of a signalling message to its handler.
pub mod Laws
use cloud_node.Base.{
  Text, text, text_ord, nat_ord, ◌==◌, ℕ, ◌+◌, ◌*◌, ◌%◌, ◌-◌, ◌^◌, bit_xor, Bool, String, ◌||◌,
  Option, none, some, List, [], ◌∷◌, if◌then◌else◌, ltb,
}
use cloud_node.Json.{Json, Run, done, fault, string_member}

-- `static_cast<unsigned int>(c)` of a signed `char`
sign_extend : ℕ → ℕ
sign_extend c = if ltb c 128 then c else c + (2 ^ 32 - 256)

hash_from : ℕ → Text → ℕ
hash_from hash [] = hash
hash_from hash (c ∷ str) = hash_from (bit_xor hash (sign_extend c) * 16777619 % 2 ^ 32) str

unfoldable pub string_hash : Text → ℕ
unfolding hash_from sign_extend
string_hash str = hash_from 2166136261 str

-- The virtual handler that a case of the switch calls.
pub data Kind : Type 0 where
  join leave file_accept file_reject offer answer candidate : Kind
  file_offer file_complete ping_pong unhandled : Kind

abbrev is_case : ℕ → String → Bool
is_case hash label = hash == string_hash (text label)

-- The switch.
pub kind_of_hash : ℕ → Kind
unfolding string_hash
kind_of_hash h =
    if is_case h "join" || is_case h "peer_joined"
    then join
    else if is_case h "peer_left" || is_case h "leave"
    then leave
    else if is_case h "file_accept"
    then file_accept
    else if is_case h "file_reject"
    then file_reject
    else if is_case h "offer"
    then offer
    else if is_case h "answer"
    then answer
    else if is_case h "candidate"
    then candidate
    else if is_case h "file_offer"
    then file_offer
    else if is_case h "file_complete"
    then file_complete
    else if is_case h "ping" || is_case h "pong"
    then ping_pong
    else unhandled

pub kind_of : Text → Kind
unfolding kind_of_hash
kind_of type = kind_of_hash (string_hash type)

-- What a role does on each kind of message.
pub record Handlers (J : Json) (S : Type 0) : Type 0 where
  pub on_join : J.Value → S → Run S
  pub on_leave : J.Value → S → Run S
  pub on_file_accept : J.Value → S → Run S
  pub on_file_reject : J.Value → S → Run S
  pub on_offer : J.Value → S → Run S
  pub on_answer : J.Value → S → Run S
  pub on_candidate : J.Value → S → Run S
  pub on_file_offer : J.Value → S → Run S
  pub on_file_complete : J.Value → S → Run S
  pub on_ping_pong : J.Value → S → Run S

module _ (J : Json) {S : Type 0} (h : Handlers J S) where
  unfoldable pub dispatch : Kind → J.Value → S → Run S
  dispatch join doc s = h.on_join doc s
  dispatch leave doc s = h.on_leave doc s
  dispatch file_accept doc s = h.on_file_accept doc s
  dispatch file_reject doc s = h.on_file_reject doc s
  dispatch offer doc s = h.on_offer doc s
  dispatch answer doc s = h.on_answer doc s
  dispatch candidate doc s = h.on_candidate doc s
  dispatch file_offer doc s = h.on_file_offer doc s
  dispatch file_complete doc s = h.on_file_complete doc s
  dispatch ping_pong doc s = h.on_ping_pong doc s
  dispatch unhandled doc s = done s

  route_type : J.Value → Option Text → S → Run S
  route_type doc none s = done s
  route_type doc (some type) s = dispatch (kind_of type) doc s

  -- `HasMember` wants an object.
  route_doc : Option J.Value → S → Run S
  unfolding route_type
  route_doc none s = done s
  route_doc (some doc) s =
      if J.is_object doc then route_type doc (string_member J (text "type") doc) s else fault

  unfoldable pub message_router : Text → S → Run S
  unfolding route_doc
  message_router json s = route_doc (J.parse json) s
