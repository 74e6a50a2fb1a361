-- ===== src/Client/Worker/Countdown.antt =====
-- How far the worker of src/WebRTCClient.cpp is from the end of its thread once its client is stopped.
use cloud_node.Base.{nat_ord, text_ord, pair_ord, ℕ, ◌≤◌, arith, ◌≡◌, refl, [], ◌∷◌}
use cloud_node.Client.Worker.{
  Point, top, awaiting_open, awaiting_answer, running, awaiting_pong, idle, pinging, pinged,
  joining, awaiting_join, all_joined, connecting, connected, unconnected, offering, awaiting_peer,
  sending, sent_to, returned, ended, crashed,
}

-- The points from which a stop is not lost: not where `SendFileOffer` is called, and not where an
-- exception has ended the thread.
abbrev pub Stops : Point → Type 0
Stops (sending spec specs) = ⊥
Stops crashed = ⊥
Stops _ = Unit {0}

-- How many steps it is to the end of the thread, at most.
abbrev pub steps_left : Point → ℕ
steps_left top = 1
steps_left awaiting_open = 1
steps_left awaiting_answer = 1
steps_left running = 1
steps_left awaiting_pong = 1
steps_left idle = 1
steps_left pinging = 2
steps_left (pinged sent) = 1
steps_left (joining [] task) = 5
steps_left (joining (room ∷ rooms) task) = 2
steps_left (awaiting_join rooms task) = 2
steps_left (all_joined task) = 4
steps_left (connecting peer room specs) = 2
steps_left (connected peer room specs) = 4
steps_left unconnected = 2
steps_left (offering specs) = 3
steps_left (awaiting_peer spec specs) = 2
steps_left (sending spec specs) = 3
steps_left (sent_to ready specs) = 2
steps_left (returned offered) = 1
steps_left ended = 0
steps_left crashed = 0

pub none_left : (p : Point) → Stops p → steps_left p ≤ 0 → p ≡ ended
none_left ended t h = refl
none_left crashed t h = absurd t
none_left top t h = absurd (omega arith)
none_left awaiting_open t h = absurd (omega arith)
none_left awaiting_answer t h = absurd (omega arith)
none_left running t h = absurd (omega arith)
none_left awaiting_pong t h = absurd (omega arith)
none_left idle t h = absurd (omega arith)
none_left pinging t h = absurd (omega arith)
none_left (pinged sent) t h = absurd (omega arith)
none_left (joining [] task) t h = absurd (omega arith)
none_left (joining (room ∷ rooms) task) t h = absurd (omega arith)
none_left (awaiting_join rooms task) t h = absurd (omega arith)
none_left (all_joined task) t h = absurd (omega arith)
none_left (connecting peer room specs) t h = absurd (omega arith)
none_left (connected peer room specs) t h = absurd (omega arith)
none_left unconnected t h = absurd (omega arith)
none_left (offering specs) t h = absurd (omega arith)
none_left (awaiting_peer spec specs) t h = absurd (omega arith)
none_left (sending spec specs) t h = absurd t
none_left (sent_to ready specs) t h = absurd (omega arith)
none_left (returned offered) t h = absurd (omega arith)

pub at_most_five : (p : Point) → Stops p → steps_left p ≤ 5
at_most_five top t = omega arith
at_most_five awaiting_open t = omega arith
at_most_five awaiting_answer t = omega arith
at_most_five running t = omega arith
at_most_five awaiting_pong t = omega arith
at_most_five idle t = omega arith
at_most_five pinging t = omega arith
at_most_five (pinged sent) t = omega arith
at_most_five (joining [] task) t = omega arith
at_most_five (joining (room ∷ rooms) task) t = omega arith
at_most_five (awaiting_join rooms task) t = omega arith
at_most_five (all_joined task) t = omega arith
at_most_five (connecting peer room specs) t = omega arith
at_most_five (connected peer room specs) t = omega arith
at_most_five unconnected t = omega arith
at_most_five (offering specs) t = omega arith
at_most_five (awaiting_peer spec specs) t = omega arith
at_most_five (sending spec specs) t = absurd t
at_most_five (sent_to ready specs) t = omega arith
at_most_five (returned offered) t = omega arith
at_most_five ended t = omega arith
at_most_five crashed t = absurd t
