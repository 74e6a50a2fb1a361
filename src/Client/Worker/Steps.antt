-- ===== src/Client/Worker/Steps.antt =====
-- The worker thread among the other threads, and what the state can be where it stands.
use cloud_node.Base.{nat_ord, text_ord, pair_ord, ◌≡◌, sym, subst, true, false}
use cloud_node.Client.State.{
  ClientState, init, waiting_for_join, joined, run, ping, wait_for_pong, wait_for_file_accept, exit,
  Client,
}
use cloud_node.Client.Callbacks.States.{Change, same, begins, runs, stops, joins}
use cloud_node.Client.Worker.{
  Point, top, awaiting_open, awaiting_answer, running, awaiting_pong, idle, pinging, pinged,
  joining, awaiting_join, all_joined, connecting, connected, unconnected, offering, awaiting_peer,
  sending, sent_to, returned, ended, crashed, is_stopped,
}

-- Nobody waits for a join, and nobody has just been joined.
abbrev pub IsQuiet : ClientState → Type 0
IsQuiet waiting_for_join = ⊥
IsQuiet joined = ⊥
IsQuiet _ = Unit {0}

-- Nobody waits for a join.
abbrev pub IsSettled : ClientState → Type 0
IsSettled waiting_for_join = ⊥
IsSettled _ = Unit {0}

-- What the state is where the worker stands.
abbrev pub Fits : Point → ClientState → Type 0
Fits top s = IsQuiet s
Fits awaiting_open s = IsQuiet s
Fits awaiting_answer s = IsQuiet s
Fits running s = IsQuiet s
Fits awaiting_pong s = IsQuiet s
Fits idle s = ⊥
Fits pinging s = IsQuiet s
Fits (pinged sent) s = IsQuiet s
Fits (returned false) s = IsQuiet s
Fits (awaiting_join rooms task) s = Unit {0}
Fits ended s = Unit {0}
Fits crashed s = Unit {0}
Fits _ s = IsSettled s

abbrev pub FitsPair : Point × Client → Type 0
FitsPair (p, c) = Fits p c.state

pub IsQuiet-IsSettled : (s : ClientState) → IsQuiet s → IsSettled s
IsQuiet-IsSettled waiting_for_join h = h
IsQuiet-IsSettled joined h = tt
IsQuiet-IsSettled init h = tt
IsQuiet-IsSettled run h = tt
IsQuiet-IsSettled ping h = tt
IsQuiet-IsSettled wait_for_pong h = tt
IsQuiet-IsSettled wait_for_file_accept h = tt
IsQuiet-IsSettled exit h = tt

IsQuiet-Change : (s t : ClientState) → Change s t → IsQuiet s → IsQuiet t
IsQuiet-Change s t (same e) h = subst IsQuiet (sym e) h
IsQuiet-Change s t (begins e) h = subst IsQuiet (sym e) tt
IsQuiet-Change s t (runs e) h = subst IsQuiet (sym e) tt
IsQuiet-Change s t (stops e) h = subst IsQuiet (sym e) tt
IsQuiet-Change s t (joins w e) h = absurd (subst IsQuiet w h)

IsSettled-Change : (s t : ClientState) → Change s t → IsSettled s → IsSettled t
IsSettled-Change s t (same e) h = subst IsSettled (sym e) h
IsSettled-Change s t (begins e) h = subst IsSettled (sym e) tt
IsSettled-Change s t (runs e) h = subst IsSettled (sym e) tt
IsSettled-Change s t (stops e) h = subst IsSettled (sym e) tt
IsSettled-Change s t (joins w e) h = subst IsSettled (sym e) tt

pub Fits-Change : (p : Point) (s t : ClientState) → Change s t → Fits p s → Fits p t
Fits-Change top s t h f = IsQuiet-Change s t h f
Fits-Change awaiting_open s t h f = IsQuiet-Change s t h f
Fits-Change awaiting_answer s t h f = IsQuiet-Change s t h f
Fits-Change running s t h f = IsQuiet-Change s t h f
Fits-Change awaiting_pong s t h f = IsQuiet-Change s t h f
Fits-Change idle s t h f = f
Fits-Change pinging s t h f = IsQuiet-Change s t h f
Fits-Change (pinged sent) s t h f = IsQuiet-Change s t h f
Fits-Change (returned false) s t h f = IsQuiet-Change s t h f
Fits-Change (returned true) s t h f = IsSettled-Change s t h f
Fits-Change (awaiting_join rooms task) s t h f = tt
Fits-Change ended s t h f = tt
Fits-Change crashed s t h f = tt
Fits-Change (joining rooms task) s t h f = IsSettled-Change s t h f
Fits-Change (all_joined task) s t h f = IsSettled-Change s t h f
Fits-Change (connecting peer room specs) s t h f = IsSettled-Change s t h f
Fits-Change (connected peer room specs) s t h f = IsSettled-Change s t h f
Fits-Change unconnected s t h f = IsSettled-Change s t h f
Fits-Change (offering specs) s t h f = IsSettled-Change s t h f
Fits-Change (awaiting_peer spec specs) s t h f = IsSettled-Change s t h f
Fits-Change (sending spec specs) s t h f = IsSettled-Change s t h f
Fits-Change (sent_to ready specs) s t h f = IsSettled-Change s t h f

pub is_stopped-IsQuiet : (s : ClientState) → is_stopped s ≡ true → IsQuiet s
is_stopped-IsQuiet init h = tt
is_stopped-IsQuiet exit h = tt
is_stopped-IsQuiet waiting_for_join h = cc
is_stopped-IsQuiet joined h = cc
is_stopped-IsQuiet run h = tt
is_stopped-IsQuiet ping h = tt
is_stopped-IsQuiet wait_for_pong h = tt
is_stopped-IsQuiet wait_for_file_accept h = tt
