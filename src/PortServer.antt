-- ===== src/PortServer.antt =====
-- src/MessagePortServer.cpp: the server's end of the message port. uWebSockets is a parameter: its
-- callbacks come with the sockets, and which of them are open is kept by the socket's handle.
pub mod Filing
pub mod Tracking
pub mod Asked
pub mod Thread
pub mod Stopping
use cloud_node.Base.{
  if◌then◌else◌, is_some, ◌==◌, nat_ord, Text, text_ord, pair_ord, ℕ, Bool, true, false, not, ◌&&◌,
  Option, none, some, List, [], ◌∷◌, ◌++◌, map,
}
use cloud_node.Base.Dict.{Dict, lookup, insert, erase}
use cloud_node.Server.{Ws}

-- A callback that was called.
pub data Heard : Type 0 where
  opened : Ws → Heard
  message : Ws → Text → Heard
  closed : Ws → ℕ → Text → Heard

pub record PortServer : Type 0 where
  pub is_running : Bool
  pub stop_requested : Bool
  -- Whether `m_serverThread` is joinable, and whether `m_loop` and `m_listenSocket` are set
  pub joinable : Bool
  pub loop : Bool
  pub listen_socket : Bool
  pub clients : Dict Text Ws
  -- The open sockets, each with its `PerSocketData`
  pub connected : Dict ℕ Text
  pub heard : List Heard

-- `Start`: `none` where the program ends, since a thread is assigned to one that is still joinable.
unfoldable pub start : PortServer → Option (PortServer × Bool)
start s =
    if s.is_running
    then some (s, false)
    else if s.joinable
    then none
    else some (record s { stop_requested = false; joinable = true }, true)

-- The callback of `listen`
unfoldable pub on_listen : Bool → PortServer → PortServer
on_listen true s = record s { listen_socket = true; loop = true; is_running = true }
on_listen false s = record s { is_running = false; stop_requested = true }

unfoldable pub on_open : Ws → PortServer → PortServer
on_open ws s = record s {
  clients =
      if is_some (lookup ws.x_client_id s.clients)
      then s.clients
      else insert ws.x_client_id ws s.clients;
  connected = insert ws.handle ws.x_client_id s.connected;
  heard = s.heard ++ (opened ws ∷ []);
}

-- `is_text` says whether the message's code is `TEXT`.
unfoldable pub on_message : Bool → Ws → Text → PortServer → PortServer
on_message is_text ws t s = record s {
  heard = s.heard ++ (if is_text then message ws t ∷ [] else []);
}

abbrev pub is_socket : Option Ws → Ws → Bool
is_socket none ws = false
is_socket (some other) ws = other.handle == ws.handle

unfoldable pub on_close : Ws → ℕ → Text → PortServer → PortServer
on_close ws code reason s = record s {
  clients =
      if is_socket (lookup ws.x_client_id s.clients) ws
      then erase ws.x_client_id s.clients
      else s.clients;
  connected = erase ws.handle s.connected;
  heard = s.heard ++ (closed ws code reason ∷ []);
}

-- `Send`
unfoldable pub send : Text → PortServer → Bool
send t s = false

-- `Stop`, up to its join, and whether it defers the closing to the loop.
unfoldable pub request_stop : PortServer → PortServer × Bool
request_stop s = (
  record s { is_running = false; stop_requested = true },
  not (not s.is_running && not s.joinable) && (s.loop && s.listen_socket),
)

abbrev pub sockets : Dict Text Ws → List Ws
sockets clients = map (λ (id, ws). ws) clients

-- What `Stop` defers: the listening socket is closed, and each client's socket is asked to end.
unfoldable pub run_deferred : PortServer → PortServer × List Ws
run_deferred s = (record s { listen_socket = false }, sockets s.clients)
