-- ===== src/PortServer/Stopping/Loops.antt =====
-- src/MessagePortServer.cpp: a `Stop` that comes before the thread has its event loop.
use cloud_node.Base.{nat_ord, text_ord, pair_ord, ◌≡◌, refl, true, false, none, arith}
use cloud_node.Base.Dict.{lookup}
use cloud_node.Server.{Ws}
use cloud_node.PortServer.{on_listen, on_open, on_message, on_close, request_stop}
use cloud_node.PortServer.Thread.{
  looping, Serving, Step, listens, listens_not, tells, closes, ends, runs, returns, stop,
}

-- Whatever happens, with sockets that open.
pub data Events (s : Serving) : Serving → Type 0 where
  none_yet : Events s s
  steps : {t u : Serving} → Events s t → Step t u → Events s u
  opens :
      (ws : Ws) {t : Serving}
      → Events s t
      → t.point ≡ looping
      → lookup ws.handle t.port.connected ≡ none
      → Events s (record t { port = on_open ws t.port })

-- It listens, and nothing will close it.
record Stays (s : Serving) : Type 0 where
  looping_on : s.point ≡ looping
  listening : s.port.listen_socket ≡ true
  undeferred : s.deferred ≡ false

Step-Stays : {s t : Serving} → Stays s → Step s t → Stays t
unfolding on_open on_message on_close
Step-Stays x (listens s p) = absurd (ground (arith, x.looping_on))
Step-Stays x (listens_not s p) = absurd (ground (arith, x.looping_on))
Step-Stays x (tells b ws t s p o) = record {
  looping_on = x.looping_on;
  listening = x.listening;
  undeferred = x.undeferred;
}
Step-Stays x (closes ws code reason s p o) = record {
  looping_on = x.looping_on;
  listening = x.listening;
  undeferred = x.undeferred;
}
Step-Stays x (ends ws s p o m) = record {
  looping_on = x.looping_on;
  listening = x.listening;
  undeferred = x.undeferred;
}
Step-Stays x (runs s p d) = absurd (ground (arith, x.undeferred))
Step-Stays x (returns s p l c) = absurd (ground (arith, x.listening))

Events-Stays : {s t : Serving} → Stays s → Events s t → Stays t
unfolding on_open
Events-Stays x none_yet = x
Events-Stays x (steps u v) = Step-Stays (Events-Stays x u) v
Events-Stays x (opens ws u p o) =
    let y = Events-Stays x u in
    record { looping_on = y.looping_on; listening = y.listening; undeferred = y.undeferred }

-- The port with its listening socket.
abbrev pub listening : Serving → Serving
listening s = record s { port = on_listen true s.port; point = looping }

-- A stop that comes before the thread has its loop closes nothing: if the port listens then, the
-- thread stays in the loop whatever comes, so that the stop waits for ever.
pub stop-loops :
    (s : Serving) {t : Serving}
    → s.port.loop ≡ false
    → Events (listening (stop s)) t
    → t.point ≡ looping
unfolding stop request_stop on_listen
stop-loops s h u =
    let x : Stays (listening (stop s)) = record {
      looping_on = refl;
      listening = refl;
      undeferred = ground (arith, h);
    } in
    (Events-Stays x u).looping_on
