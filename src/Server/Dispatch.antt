-- ===== src/Server/Dispatch.antt =====
-- The server as an endpoint: its handlers behind the router, and the events of its message port.
use cloud_node.Base.{nat_ord, Text, text_ord, pair_ord, Option, some}
use cloud_node.Json.{Json, Run, done}
use cloud_node.Router.{Handlers, message_router}
use cloud_node.Server.State.{Ws, Server}
use cloud_node.Server.Membership.{
  on_join, on_leave, on_ping_pong, on_message_open, on_message_close,
}
use cloud_node.Server.Relay.{on_offer, on_answer, on_candidate, on_file_complete}
use cloud_node.Server.Files.{on_file_offer, on_file_accept, on_file_reject}

-- What the message port calls back with.
pub data Event : Type 0 where
  opened : Ws → Event
  message : Ws → Text → Event
  closed : Ws → Event

module _ (J : Json) where
  abbrev pub handlers : Option Ws → Handlers J Server
  handlers ws = record {
    on_join = on_join J ws;
    on_leave = on_leave J ws;
    on_file_accept = on_file_accept J ws;
    on_file_reject = on_file_reject J ws;
    on_offer = on_offer J ws;
    on_answer = on_answer J ws;
    on_candidate = on_candidate J ws;
    on_file_offer = on_file_offer J ws;
    on_file_complete = on_file_complete J ws;
    on_ping_pong = on_ping_pong J ws;
  }

  -- The constructor's three callbacks, which set `m_currentWebSocket` first.
  unfoldable pub on_event : Event → Server → Run Server
  on_event (opened ws) s = done (on_message_open J ws.x_client_id s)
  on_event (message ws json) s = message_router J (handlers (some ws)) json s
  on_event (closed ws) s = done (on_message_close J (some ws) s)
