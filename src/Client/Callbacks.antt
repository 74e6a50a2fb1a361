-- ===== src/Client/Callbacks.antt =====
-- What other threads do to a client: the message port's callbacks, with the client's handlers behind
-- the router of include/WebRTC.hpp, the callbacks of peer connections, and the calls of the program.
pub mod States
pub mod Changes
use cloud_node.Base.{nat_ord, Text, text_ord, pair_ord, ℕ}
use cloud_node.Json.{Json, Run, done}
use cloud_node.Router.{Handlers, message_router}
use cloud_node.LocalDescription.{Base64}
use cloud_node.Client.State.{Key, Client, Env}
use cloud_node.Client.Session
use cloud_node.Client.Incoming.{on_incoming_chunk, take_received_file}
use cloud_node.Client.Offering
use cloud_node.Client.Sending.{queue_file, queue_file_to_all}
use cloud_node.Client.Peering

pub data Callback : Type 0 where
  opened : Callback
  message : Text → Callback
  closed : Callback
  -- `OnIncomingChunk`, and the callbacks of a connection that answers
  chunk : Key → Text → Callback
  data_channel : Key → ℕ → Callback
  local_candidate : Key → Text → Text → Callback
  local_description : Key → Text → Text → Callback
  -- `QueueFile`, `QueueFileToAll`, `TakeReceivedFile` and `Stop`
  asked : Text → Text → Text → Callback
  asked_for_all : Text → Callback
  taken : Text → Callback
  stopped : Callback

module _ (J : Json) (env : Env) (base64 : Base64) where
  -- The client's overrides.
  abbrev pub handlers : Handlers J Client
  handlers = record {
    on_join = Session.on_join J env;
    on_leave = Session.on_leave J env;
    on_file_accept = Session.on_file_accept J env;
    on_file_reject = Session.on_file_reject J env;
    on_offer = Peering.on_offer env base64 J;
    on_answer = Peering.on_answer env base64 J;
    on_candidate = Peering.on_candidate env base64 J;
    on_file_offer = Offering.on_file_offer J env;
    on_file_complete = Session.on_file_complete J env;
    on_ping_pong = Session.on_ping_pong J env;
  }

  unfoldable pub call : Callback → Client → Run Client
  call opened c = done (Session.on_message_open c)
  call (message json) c = message_router J handlers json c
  call closed c = done (Session.on_message_close c)
  call (chunk key bytes) c = done (on_incoming_chunk env key bytes c)
  call (data_channel key channel) c = done (Peering.on_data_channel env base64 key channel c)
  call (local_candidate key candidate mid) c =
      done (Peering.on_local_candidate env base64 key candidate mid c)
  call (local_description key description type) c =
      done (Peering.on_local_description env base64 key description type c)
  call (asked name room path) c = done (queue_file name room path c).0
  call (asked_for_all path) c = done (queue_file_to_all path c).0
  call (taken path) c = done (take_received_file env path c).0
  call stopped c = done (Session.stop c)
