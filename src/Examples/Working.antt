-- ===== src/Examples/Working.antt =====
-- The worker thread of a client.
use cloud_node.Base.{
  ℕ, nat_ord, text, text_cmp, text_ord, pair_ord, suc, ◌*◌, ◌≡◌, refl, true, false, none, some, [],
  ◌∷◌,
}
use cloud_node.Base.Dict.{lookup}
use cloud_node.Base.Set
use cloud_node.Rooms.{get_peers}
use cloud_node.LocalDescription.{Base64}
use cloud_node.Client.Specs.{FileSpec}
use cloud_node.Client.State.{init, run, exit, waiting_for_join, is_ready, Client}
use cloud_node.Client.Sending.{Files, in_room, join_room, offer_details, c_str}
use cloud_node.Client.Channel.{Rtc}
use cloud_node.Client.Session
use cloud_node.Client.Callbacks.{opened, call}
use cloud_node.Client.Startup.{Options, startup_files, startup_rooms}
use cloud_node.Client.Worker.{
  startup, file, top, joining, awaiting_join, connecting, ended, sending, step, round, start_up,
  join_rooms,
}
use cloud_node.Client.Session.{on_message_open}
use cloud_node.Client.Worker.Steps.{Fits}
use cloud_node.Client.Worker.Reached.{started, works, calls, Reached-Fits}
use cloud_node.Client.Worker.Stopping.{advance, interleaved, stopped-ends}
use cloud_node.Client.Worker.Spinning.{start, top-start}
use cloud_node.Client.Worker.Troubles
use cloud_node.Client.Worker.Troubles.{
  IsAfterOffer, GivesUp, sending-loses_stop, awaiting_join-GivesUp,
}
use cloud_node.Examples.Fixtures.{J, env, client}

abbrev files : Files
files = record {
  resolves = λ _. true;
  relative = λ path _. path;
  file_info = λ _ _. some (text "{}");
}

abbrev rtc : Rtc
rtc = record { makes_channel = λ _. true; gathered = λ _. none }

abbrev base64 : Base64
base64 = record { encode = λ t. t; decode = λ t. t }

abbrev in_lab : Options
in_lab = record { peer = none; room = some (text "lab"); file = none }

abbrev nowhere : Options
nowhere = record { peer = some []; room = some []; file = none }

abbrev fresh : Client
fresh = record client { state = init; transport_open = false }

abbrev open_client : Client
open_client = record client { state = init; transport_open = true }

abbrev spec : FileSpec
spec = record { peer = text "bob"; room = text "lab"; path = text "b" }

Reached-Fits_example : Fits (awaiting_join [] (startup [] (text "lab") [])) waiting_for_join
unfolding step round start_up startup_files startup_rooms join_rooms call Session.on_message_open
    in_room join_room c_str Set.insert lookup get_peers
Reached-Fits_example = Reached-Fits J env rtc base64 files in_lab (
    works false [] (joining (text "lab" ∷ []) (startup [] (text "lab") [])) open_client
      (works false [] top open_client (calls opened fresh (started fresh refl) refl) refl) refl)

-- Between the steps another thread takes a message in.
abbrev hears : ℕ → Client → Client
hears n c = on_message_open c

stopped-ends_example :
    let x =
      interleaved J env rtc base64 files in_lab
        (λ _. false)
        (λ _. [])
        hears
        5
        (connecting (text "bob") (text "lab") (spec ∷ []), record client { state = exit }) in
    (x.0 ≡ ended) × (x.1.state ≡ exit)
unfolding on_message_open
stopped-ends_example =
    stopped-ends J env rtc base64 files in_lab (λ _. false) (λ _. []) hears (λ n c e. e)
      (connecting (text "bob") (text "lab") (spec ∷ [])) (record client { state = exit }) tt refl

top-start_example :
    advance J env rtc base64 files nowhere (λ _. false) (λ _. []) (suc (4 * 5)) (top, open_client)
    ≡ start J env rtc base64 files nowhere (λ _. false) (λ _. []) open_client
unfolding startup_files
top-start_example =
    top-start J env rtc base64 files nowhere (λ _. false) (λ _. []) 5 open_client refl refl refl
      refl refl

sending-loses_stop_example : IsAfterOffer J env rtc base64 files in_lab [] (
    step J env rtc base64 files in_lab false
      (text "u2")
      (sending spec [])
      (record client { state = exit }))
unfolding lookup offer_details is_ready text_cmp
sending-loses_stop_example =
    sending-loses_stop J env rtc base64 files in_lab false (text "u2") spec []
      (record client { state = exit }) refl refl refl

awaiting_join-GivesUp_example : GivesUp J env rtc base64 files in_lab (
    step J env rtc base64 files in_lab true []
      (awaiting_join [] (file spec []))
      (record client { state = run; transport_open = true }))
unfolding call Session.on_message_open step Troubles.calls
awaiting_join-GivesUp_example =
    awaiting_join-GivesUp J env rtc base64 files in_lab (opened ∷ []) true [] [] (file spec [])
      (record client { state = run; transport_open = false })
      (record client { state = run; transport_open = true }) refl refl
