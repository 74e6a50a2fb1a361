-- ===== src/Examples/Running.antt =====
-- Runs of `main`, of the file watcher's thread, of the logger, and a random name.
use cloud_node.Base.{
  nat_ord, text, text_ord, pair_ord, ℕ, ◌≡◌, refl, true, false, Option, none, some, [], ◌∷◌,
}
use cloud_node.Json.{done, fault}
use cloud_node.StopToken.{standard, posix}
use cloud_node.Program.{Cmdline, defaults, properties_of}
use cloud_node.Program.Roles.{client, server, IsRead, properties_of-IsRead}
use cloud_node.Program.Main.{
  Round, on_file, port_start, watcher_start, watcher_stop, port_stop, main, main-stops,
  main-undefined,
}
use cloud_node.FileWatcher.Stopping.{
  Watching, Poll, IsGuarded, Reached, Reached-IsGuarded, idle, start, step, join,
}
use cloud_node.FileWatcher.Stopping
use cloud_node.Logger.{at, info, error, begin_at, put_at, end_at, Console}
use cloud_node.Logger.Lines.{Line, Logs, IsPrinted, Logs-IsPrinted}
use cloud_node.RandomName.{Draws, generate}

abbrev watching : Cmdline
watching = record defaults { directory = text "in" }

abbrev quiet : Round
quiet = record { signalled = false; running = true }

abbrev interrupted : Round
interrupted = record { signalled = true; running = true }

main-stops_example :
    main posix 0 0 client watching true (quiet ∷ quiet ∷ interrupted ∷ [])
    ≡ some (done (on_file ∷ port_start ∷ watcher_start ∷ watcher_stop ∷ port_stop ∷ []))
main-stops_example =
    main-stops 0 client watching (quiet ∷ quiet ∷ []) interrupted [] (refl, (refl, tt)) refl

main-undefined_example : main standard 0 0 server defaults true (quiet ∷ []) ≡ some fault
main-undefined_example = main-undefined 0 0 server defaults quiet []

properties_of-IsRead_example : IsRead (text "Bear") watching (properties_of (text "Bear") watching)
properties_of-IsRead_example = properties_of-IsRead (text "Bear") watching

abbrev polling : Watching
polling = step Poll.events (start true true true idle).0

Reached-IsGuarded_example : IsGuarded (Stopping.request_stop true polling)
unfolding start step
Reached-IsGuarded_example = Reached-IsGuarded (
    Reached.stops true
      (Reached.steps Poll.events (Reached.starts true true true Reached.fresh refl) refl) refl)

abbrev told : Line
told = record { level = info; timestamp = text "t"; value = text "a" }

abbrev failed : Line
failed = record { level = error; timestamp = text "u"; value = text "b" }

abbrev lines_at : ℕ → Option Line
lines_at = at 1 none (
    at 1 (some failed) (
      at 1 (some (record failed { value = [] }))
        (at 0 (some told) (at 0 (some (record told { value = [] })) (λ _. none)))))

abbrev empty : Console
empty = record { streams = λ _. none; cout = []; cerr = [] }

-- Two threads write a line each; the first is still at its line when the second has ended.
abbrev two_threads : Console
two_threads = end_at 1 (
    put_at 1 (text "b")
      (begin_at 1 error (text "u") (put_at 0 (text "a") (begin_at 0 info (text "t") empty))))

Logs-IsPrinted_example : IsPrinted two_threads lines_at (failed ∷ [])
Logs-IsPrinted_example = Logs-IsPrinted (
    Logs.ends 1 failed
      (Logs.puts 1 (text "b") (record failed { value = [] })
        (Logs.begins 1 error (text "u") (
          Logs.puts 0 (text "a") (record told { value = [] })
            (Logs.begins 0 info (text "t") Logs.fresh) refl))
        refl)
      refl)

abbrev draws : Draws
draws = record { animal = 8; object = 0; verb = 7; noun = 3; number = 100 }

name_of_draws : generate draws ≡ some (text "WolfAnchorSwimmingMountain#100")
unfolding generate
name_of_draws = refl
