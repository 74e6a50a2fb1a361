-- ===== src/Examples/Peers.antt =====
-- The message port of a client, its peer connections, and the changes of its directory.
use cloud_node.Base.{
  nat_ord, Text, text, text_cmp, text_ord, pair_ord, ◌≡◌, refl, true, false, Option, none, some, [],
  ◌∷◌, ◌++◌, arith,
}
use cloud_node.Base.Decimal.{decimal}
use cloud_node.Base.Set
use cloud_node.Json.{done}
use cloud_node.Json.Values.{Val, Vals, Fields}
use cloud_node.LocalDescription.{Base64, base64_decode}
use cloud_node.FileWatcher.{added, modified}
use cloud_node.Client.State.{Client, run}
use cloud_node.Client.Sending.{queue_file_to_all}
use cloud_node.Client.Peering.{answering, on_offer}
use cloud_node.Client.Peering.Answering.{description_calls, candidate_calls, on_offer-calls}
use cloud_node.Program.{on_change}
use cloud_node.Program.Changes.{forgets, on_change-once}
use cloud_node.PortClient.{
  started, Point, PortClient, step, start, opens, on_event, request_stop, join,
}
use cloud_node.PortClient.Threads.{Reached, IsSound, Reached-IsSound}
use cloud_node.PortClient.Ends.{advance, IsJoined, request_stop-IsJoined}
use cloud_node.Client.Sender
use cloud_node.Client.Sender.{Sender}
use cloud_node.Client.Sender.Prefixes
use cloud_node.Client.Sender.Buffered
use cloud_node.Client.Sender.Buffered.{IsBounded, Filled-IsBounded}
use cloud_node.Client.Sender.Prefixes.{IsInOrder, Reached-IsInOrder}
use cloud_node.Examples.Fixtures.{J, env, client}

abbrev port : PortClient
port = record {
  url = [];
  is_running = false;
  stop_requested = false;
  disconnected = false;
  socket = none;
  on_open = true;
  on_message = true;
  on_close = true;
  made = 0;
  calls = [];
  heard = [];
  point = Point.absent;
}

abbrev making : PortClient
making = record port { url = text "ws:1"; point = Point.making }

abbrev starting : PortClient
starting = record making { socket = some 0; made = 1; point = Point.starting }

request_stop-IsJoined_example : IsJoined (join (advance (λ _. false) 3 (request_stop starting)))
request_stop-IsJoined_example = request_stop-IsJoined (λ _. false) starting

abbrev waiting : PortClient
waiting = record starting { calls = started 0 ∷ []; point = Point.waiting }

Reached-IsSound_example : IsSound (on_event opens waiting)
unfolding start step decimal
Reached-IsSound_example = Reached-IsSound (
    Reached.tells opens waiting
      (Reached.steps false starting
        (Reached.steps false making
          (Reached.starts (text "ws") 1 port true (Reached.fresh port refl refl) refl) refl)
        refl)
      refl)

abbrev has_a : Client
has_a = record client { state = run; received_paths = text "a" ∷ [] }

on_change-once_example :
    (on_change env (text "a") added has_a ≡ forgets env (text "a") has_a)
    × (on_change env (text "a") modified (forgets env (text "a") has_a)
        ≡ (queue_file_to_all (text "a") (forgets env (text "a") (forgets env (text "a") has_a))).0)
unfolding Set.contains text_cmp
on_change-once_example = on_change-once env (text "a") added modified has_a refl refl refl

abbrev pub base64 : Base64
base64 = record { encode = λ t. t; decode = λ t. t }

abbrev full_offer : Val
full_offer = Val.obj (
    Fields.field (text "peer") (Val.str (text "bob")) (
      Fields.field (text "room") (Val.str (text "lab")) (
        Fields.field (text "descriptions") (Val.arr (Vals.cons (Val.str (text "v=0")) Vals.nil)) (
          Fields.field (text "candidates")
            (Val.arr (Vals.cons (Val.str (text "c1")) (Vals.cons (Val.str (text "c2")) Vals.nil)))
            Fields.end))))

on_offer-calls_example :
    on_offer env base64 J full_offer client
    ≡ done (
        let start = answering env base64 J (text "bob", text "lab") client in
        record start {
          calls =
              start.calls
              ++ (description_calls 8 (base64_decode base64 (text "v=0"))
                  ++ candidate_calls base64 8 (text "c1" ∷ text "c2" ∷ []));
        })
unfolding text_cmp
on_offer-calls_example =
    on_offer-calls env base64 J full_offer (text "bob") (text "lab") (text "v=0")
      (text "c1" ∷ text "c2" ∷ []) (Val.str (text "v=0")) []
      (Val.str (text "c1") ∷ Val.str (text "c2") ∷ []) client refl refl refl refl refl
      (refl, (refl, tt))

-- A file of three bytes for a channel of two bytes at a time
abbrev content : Text → Option Text
content path = some (text "xyz")

abbrev sender : Sender
sender = record {
  is_open = true;
  closed = false;
  buffered = 0;
  queue = text "a" ∷ [];
  sent = [];
  completed = [];
  point = Sender.top;
}

abbrev reading_a : Sender
reading_a = record sender { queue = []; point = Sender.reading (text "a") (text "xyz") }

abbrev sent_once : Sender
sent_once = record sender {
  queue = [];
  sent = text "xy" ∷ [];
  point = Sender.reading (text "a") (text "z");
}

Reached-IsInOrder_example : IsInOrder content 2 sent_once
unfolding Sender.step
Reached-IsInOrder_example = Reached-IsInOrder content 2 (
    Prefixes.Reached.steps true
      (record reading_a { point = Sender.checking (text "a") (text "xy") (text "z") })
      (Prefixes.Reached.steps true reading_a
        (Prefixes.Reached.steps true (record sender { point = Sender.getting })
          (Prefixes.Reached.steps true sender (Prefixes.Reached.fresh sender refl refl refl) refl)
          refl)
        refl)
      refl)

-- The channel has both bytes buffered.
Filled-IsBounded_example : IsBounded content 2 (record sent_once { buffered = 2 })
unfolding Sender.step Sender.buffers
Filled-IsBounded_example = Filled-IsBounded content 2 (
    Buffered.Filled.steps true 2
      (record reading_a { point = Sender.checking (text "a") (text "xy") (text "z") })
      (Buffered.Filled.steps true 0 reading_a
        (Buffered.Filled.steps true 0 (record sender { point = Sender.getting })
          (Buffered.Filled.steps true 0 sender (Buffered.Filled.fresh sender refl refl refl) refl
            (omega arith))
          refl (omega arith))
        refl (omega arith))
      refl (omega arith))
