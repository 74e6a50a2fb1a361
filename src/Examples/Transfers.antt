-- ===== src/Examples/Transfers.antt =====
-- Files that a client receives, their names, and the files that `--file` asks for.
use cloud_node.Base.{
  Bool-cases, ◌==◌, nat_ord, text, text_cmp, text_ord, pair_ord, ◌≡◌, refl, subst, inl, inr, true,
  none, [], ◌∷◌, ◌++◌, arith,
}
use cloud_node.Base.Dict.{lookup}
use cloud_node.Json.{done, pos}
use cloud_node.Client.Specs.{FileSpec, split, parse_file_specs}
use cloud_node.Client.Specs.Laws.{print_specs, parse_file_specs-print_specs}
use cloud_node.Client.FilePath.{filenames, resolve, normal, offered_name, joined, destination}
use cloud_node.Client.FilePath.Confinement.{IsConfined, offered_name-IsBelow}
use cloud_node.Client.State.{Client, Key}
use cloud_node.Client.Incoming.{contents, on_incoming_chunk}
use cloud_node.Client.Incoming.Transfer.{front}
use cloud_node.Client.Incoming.Queues.{QueuesRun, Running, on_incoming_chunk-QueuesRun}
use cloud_node.Client.Offering.{Offer, on_file_offer, receive_at}
use cloud_node.Client.Offering.Outcome.{on_file_offer-QueuesRun}
use cloud_node.Client.Session.{on_message_open, on_message_close}
use cloud_node.Client.Session.Interruption.{interrupted-misplaces}
use cloud_node.Examples.Fixtures.{file_doc, J, env, client}

abbrev key : Key
key = (text "bob", text "lab")

abbrev offer : Offer
offer = record { peer = text "bob"; room = text "lab"; name = text "a"; size = pos 3; crc = none }

-- A file of three bytes, one of which is there.
abbrev receiving : Client
receiving = record client {
  incoming_files = (key, front (text "in/a") 3 1 ∷ []) ∷ [];
  disk = (text "in/a", text "x") ∷ [];
}

receiving-Running : Running (front (text "in/a") 3 1 ∷ [])
receiving-Running = (refl, omega arith, tt)

receiving-QueuesRun : QueuesRun receiving.incoming_files
unfolding lookup
receiving-QueuesRun k q h = elim (Bool-cases (k == key)) [
  | inl e ↦
      let same : front (text "in/a") 3 1 ∷ [] ≡ q = ground (arith, e, h) in
      subst Running same receiving-Running
  | inr e ↦ absurd (ground (arith, e, h))
]

empty-QueuesRun : QueuesRun client.incoming_files
unfolding lookup
empty-QueuesRun k q h = absurd (cc)

on_incoming_chunk-QueuesRun_example :
    QueuesRun (on_incoming_chunk env key (text "y") receiving).incoming_files
on_incoming_chunk-QueuesRun_example =
    on_incoming_chunk-QueuesRun env key (text "y") receiving receiving-QueuesRun

on_file_offer-QueuesRun_example :
    (d : Client) × (on_file_offer J env file_doc client ≡ done d) × QueuesRun d.incoming_files
on_file_offer-QueuesRun_example = on_file_offer-QueuesRun J env file_doc client empty-QueuesRun

interrupted-misplaces_example :
    contents env
      (text "in/a")
      (on_incoming_chunk env key (text "y") (
        receive_at J env file_doc offer
          (text "in/b")
          (on_message_open (on_message_close receiving)))).disk
    ≡ contents env (text "in/a") receiving.disk ++ text "y"
unfolding text_cmp lookup
interrupted-misplaces_example =
    interrupted-misplaces J env file_doc offer (text "in/b") (text "in/a") 3 1 (text "y") receiving
      refl refl (omega arith)

-- The paths in the normal form that `lexically_normal` gives them.
normal_paths :
    (normal (text "a/x/../b") ≡ text "a" ∷ text "b" ∷ [])
    × (normal (text "a/") ≡ text "a" ∷ [] ∷ [])
    × (normal (text "/a/.") ≡ text "a" ∷ [] ∷ [])
    × (normal (text "a/b/..") ≡ text "a" ∷ [] ∷ [])
    × (normal (text "a/..") ≡ text "." ∷ [])
    × (normal (text "b/../../") ≡ text ".." ∷ [])
    × (normal (text "//") ≡ [])
unfolding normal filenames resolve split text_cmp
normal_paths = (refl, refl, refl, refl, refl, refl, refl)

destinations :
    (destination (text "in/") (text "a" ∷ [] ∷ []) ≡ text "in/a/")
    × (destination [] (text "." ∷ []) ≡ text "./.")
unfolding destination joined
destinations = (refl, refl)

offered_name-IsBelow_example : IsConfined (text "a" ∷ [] ∷ [])
unfolding offered_name normal filenames resolve split text_cmp
offered_name-IsBelow_example = offered_name-IsBelow (text "a/x/..") (text "a" ∷ [] ∷ []) refl

abbrev spec : FileSpec
spec = record { peer = text "b"; room = text "l"; path = text "p:q" }

parse_file_specs-print_specs_example :
    parse_file_specs (print_specs (spec ∷ [])) ≡ (true, spec ∷ [])
parse_file_specs-print_specs_example =
    parse_file_specs-print_specs (spec ∷ [])
      (
        record {
          peer_named = refl;
          room_named = refl;
          path_named = refl;
          peer_plain = refl;
          room_plain = refl;
        },
        tt,
      )
      ((refl, refl, refl), tt)
