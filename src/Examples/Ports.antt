-- ===== src/Examples/Ports.antt =====
-- The server port on small inputs: its table, and how a stop of it ends.
use cloud_node.Base.{
  Bool-cases, ◌==◌, ==_iff, nat_ord, Text, text, text_cmp, text_ord, pair_ord, ◌≡◌, refl, subst,
  inl, inr, true, false, some, [], ◌∷◌, arith,
}
use cloud_node.Base.Dict.{lookup, insert}
use cloud_node.Server.{Ws}
use cloud_node.PortServer.{PortServer, Heard, on_open, on_message}
use cloud_node.PortServer.Asked.{AllFiled}
use cloud_node.PortServer.Thread.{Serving, looping, OwnSteps, more, none_yet, tells, stop}
use cloud_node.PortServer.Stopping.{IsEnded, stop-returns}
use cloud_node.PortServer.Filing.{IsFiled}
use cloud_node.PortServer.Tracking
use cloud_node.Examples.Fixtures.{ann}

abbrev server_port : PortServer
server_port = record {
  is_running = true;
  stop_requested = false;
  joinable = true;
  loop = true;
  listen_socket = true;
  clients = [];
  connected = [];
  heard = [];
}

abbrev with_ann : PortServer
with_ann = record server_port {
  clients = (text "ann", ann) ∷ [];
  connected = (1, text "ann") ∷ [];
  heard = Heard.opened ann ∷ [];
}

-- A second socket of `ann`, and the first one closes.
abbrev ann_again : Ws
ann_again = record { handle = 9; x_client_id = text "ann" }

Reached-IsFiled_example :
    IsFiled
      (on_open ann_again with_ann).connected
      (text "ann")
      (lookup (text "ann") (on_open ann_again with_ann).clients)
unfolding on_open lookup insert
Reached-IsFiled_example =
    Tracking.Reached-IsFiled
      (Tracking.Reached.opens ann_again with_ann
        (Tracking.Reached.opens ann server_port (Tracking.Reached.fresh server_port refl) refl)
        refl)
      (text "ann")

-- The port with ann's socket, in its loop.
abbrev serving : Serving
serving = record { port = with_ann; point = looping; deferred = false; ending = [] }

with_ann-AllFiled : AllFiled with_ann
unfolding lookup text_cmp
with_ann-AllFiled h id e = elim (Bool-cases (h == 1)) [
  | inl k ↦
      let i : text "ann" ≡ id = ground (arith, e, k) in
      (
        ann,
        subst (λ (j : Text). lookup j with_ann.clients ≡ some ann) i refl,
        ground (arith, k, ==_iff h 1),
        i,
      )
  | inr k ↦ absurd (ground (arith, e, k))
]

-- Ann says something between the stop and the closing.
stop-returns_example :
    (t : Serving) × OwnSteps
      (record (stop serving) { port = on_message true ann (text "x") (stop serving).port })
      t
    × IsEnded t
unfolding lookup stop
stop-returns_example =
    stop-returns serving refl refl refl refl refl with_ann-AllFiled
      (more none_yet (tells true ann (text "x") (stop serving) refl refl))
