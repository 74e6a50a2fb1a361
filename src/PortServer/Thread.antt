-- ===== src/PortServer/Thread.antt =====
-- src/MessagePortServer.cpp: the thread of the port from `Start` to the join of `Stop`. The event loop is
-- uWebSockets': it calls back, runs what was deferred to it, closes the sockets that it is asked to end,
-- and returns when nothing is open.
use cloud_node.Base.{
  nat_ord, Text, text, text_ord, pair_ord, ℕ, ◌≡◌, Bool, true, false, some, List, [],
}
use mathlib.Core.List.{Memᴰ}
use cloud_node.Base.Dict.{lookup}
use cloud_node.Server.{Ws}
use cloud_node.PortServer.{PortServer, on_listen, on_message, on_close, request_stop, run_deferred}

-- Where the thread is: there is none, or it is before `listen`, in the loop, or returned and not joined.
pub data Point : Type 0 where
  absent launching looping returned : Point

-- The port, its thread, whether the closing is deferred to the loop and has not run, and the sockets
-- that were asked to end.
pub record Serving : Type 0 where
  pub port : PortServer
  pub point : Point
  pub deferred : Bool
  pub ending : List Ws

-- `connected` has the socket.
abbrev pub IsOpen : Ws → Serving → Type 0
IsOpen ws s = lookup ws.handle s.port.connected ≡ some ws.x_client_id

-- What may happen to a port while no socket opens. A socket closes because its client closes it, or
-- because it was asked to end.
pub data Step : Serving → Serving → Type 0 where
  listens :
      (s : Serving)
      → s.point ≡ launching
      → Step s (record s { port = on_listen true s.port; point = looping })
  listens_not :
      (s : Serving)
      → s.point ≡ launching
      → Step s (record s { port = on_listen false s.port; point = returned })
  tells :
      (b : Bool) (ws : Ws) (t : Text) (s : Serving)
      → s.point ≡ looping
      → IsOpen ws s
      → Step s (record s { port = on_message b ws t s.port })
  closes :
      (ws : Ws) (code : ℕ) (reason : Text) (s : Serving)
      → s.point ≡ looping
      → IsOpen ws s
      → Step s (record s { port = on_close ws code reason s.port })
  ends :
      (ws : Ws) (s : Serving)
      → s.point ≡ looping
      → IsOpen ws s
      → Memᴰ ws s.ending
      → Step s (record s { port = on_close ws 1001 (text "Server shutting down") s.port })
  runs :
      (s : Serving)
      → s.point ≡ looping
      → s.deferred ≡ true
      → Step s (record s {
        port = (run_deferred s.port).0;
        deferred = false;
        ending = (run_deferred s.port).1;
      })
  returns :
      (s : Serving)
      → s.point ≡ looping
      → s.port.listen_socket ≡ false
      → s.port.connected ≡ []
      → Step s (record s { point = returned })

-- The steps of the port and its loop alone: no client does anything.
abbrev pub IsOwn : {s t : Serving} → Step s t → Type 0
IsOwn (tells b ws t s p o) = ⊥
IsOwn (closes ws code reason s p o) = ⊥
IsOwn _ = Unit {0}

pub data Steps (s : Serving) : Serving → Type 0 where
  none_yet : Steps s s
  more : {t u : Serving} → Steps s t → Step t u → Steps s u

-- Steps of the port and its loop alone, from the first on
pub data OwnSteps : Serving → Serving → Type 0 where
  no_more : (s : Serving) → OwnSteps s s
  first : {s t u : Serving} (x : Step s t) → IsOwn x → OwnSteps t u → OwnSteps s u

-- `Stop` at a thread, up to its join.
unfoldable pub stop : Serving → Serving
unfolding request_stop
stop s = let (port, defers) = request_stop s.port in record s { port = port; deferred = defers }
