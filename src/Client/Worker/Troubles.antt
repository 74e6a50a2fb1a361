-- ===== src/Client/Worker/Troubles.antt =====
-- Stops and joins of the worker thread that do not come through.
use cloud_node.Base.{
  if◌then◌else◌, Bool-cases, is_some, nat_ord, Text, text_ord, pair_ord, ◌≡◌, refl, sym, subst, inl,
  inr, Bool, true, false, Option, none, some, List, [], ◌∷◌,
}
use cloud_node.Base.Dict.{lookup}
use cloud_node.Json.{Json, Run, done}
use cloud_node.Router.Laws.{done_inj}
use cloud_node.LocalDescription.{Base64}
use cloud_node.Client.Specs.{FileSpec}
use cloud_node.Client.State.{
  ClientState, init, waiting_for_join, joined, run, ping, wait_for_pong, wait_for_file_accept, exit,
  Client, Env,
}
use cloud_node.Client.Sending.{Files, offer_details, offer_payload, offered, send_file_offer}
use cloud_node.Client.Channel.{Rtc}
use cloud_node.Client.Callbacks.{Callback, call}
use cloud_node.Client.Callbacks.States.{Change, same, begins, runs, stops, joins}
use cloud_node.Client.Callbacks.Changes.{call-Change}
use cloud_node.Client.Startup.{Options}
use cloud_node.Client.Worker.{
  Task, Point, awaiting_join, sending, sent_to, returned, is_stopped, with_state, step, woken, late,
  is_settled, join_rooms,
}

-- What `SendFileOffer` sets the state to.
abbrev pub IsResumed : ClientState → Type 0
IsResumed wait_for_file_accept = Unit {0}
IsResumed run = Unit {0}
IsResumed _ = ⊥

-- The states in which no join is waited for and none is there.
abbrev pub IsDerailed : ClientState → Type 0
IsDerailed run = Unit {0}
IsDerailed init = Unit {0}
IsDerailed exit = Unit {0}
IsDerailed _ = ⊥

IsDerailed-Change : (s t : ClientState) → Change s t → IsDerailed s → IsDerailed t
IsDerailed-Change s t (same e) h = subst IsDerailed (sym e) h
IsDerailed-Change s t (begins e) h = subst IsDerailed (sym e) tt
IsDerailed-Change s t (runs e) h = subst IsDerailed (sym e) tt
IsDerailed-Change s t (stops e) h = subst IsDerailed (sym e) tt
IsDerailed-Change s t (joins w e) h = absurd (subst IsDerailed w h)

module _ (J : Json) (env : Env) (rtc : Rtc) (base64 : Base64) (paths : Files)
    (options : Options) where
  -- The worker's wait goes on, or `JoinRooms` returns `false`.
  abbrev pub GivesUp : Option (Point × Client) → Type 0
  GivesUp none = Unit {0}
  GivesUp (some (p, c)) = p ≡ returned false

  offered-IsResumed :
      (uuid room peer path : Text) (o : Option Text) (c : Client)
      → is_some o ≡ true
      → IsResumed (offered env uuid room peer path o c).0.state
  offered-IsResumed uuid room peer path none c h = cc
  offered-IsResumed uuid room peer path (some details) c h =
      elim (Bool-cases (env.takes (offer_payload env uuid room peer details))) [
        | inl e ↦ rw e tt
        | inr e ↦ rw e tt
      ]

  send_file_offer-IsResumed :
      (uuid room peer path : Text) (c : Client)
      → is_some (offer_details env paths room peer path c) ≡ true
      → IsResumed (send_file_offer env paths uuid room peer path c).0.state
  unfolding send_file_offer
  send_file_offer-IsResumed uuid room peer path c h =
      offered-IsResumed uuid room peer path (offer_details env paths room peer path c) c h

  abbrev pub IsAfterOffer : List FileSpec → Option (Point × Client) → Type 0
  IsAfterOffer specs none = ⊥
  IsAfterOffer specs (some (p, c)) = (p ≡ sent_to true specs) × IsResumed c.state

  -- A stop that comes while the worker is about to send a file offer is lost: if there is a channel
  -- to the peer and the file can be offered, the worker's step goes on to the next file in a state in
  -- which a file is awaited to be accepted or the client runs.
  pub sending-loses_stop :
      (expired : Bool) (uuid : Text) (spec : FileSpec) (specs : List FileSpec) (c : Client)
      → c.state ≡ exit
      → is_some (lookup (spec.peer, spec.room) c.data_channels) ≡ true
      → is_some (offer_details env paths spec.room spec.peer spec.path c) ≡ true
      → IsAfterOffer specs (step J env rtc base64 paths options expired uuid (sending spec specs) c)
  unfolding step
  sending-loses_stop expired uuid spec specs c e h d =
      rw h (refl, send_file_offer-IsResumed uuid spec.room spec.peer spec.path c d)

  -- Whatever other threads do, one after another.
  unfoldable pub calls : List Callback → Client → Run Client
  calls [] c = done c
  calls (b ∷ bs) c = elim (call J env base64 b c) [ Run.fault ↦ Run.fault | done d ↦ calls bs d ]

  woken-GivesUp :
      (s : ClientState) (o : Option (Point × Client)) (c : Client) (x : Point × Client)
      → IsDerailed s
      → GivesUp o
      → GivesUp (
          woken J env rtc base64 paths options
            (is_settled J env rtc base64 paths options s)
            o
            (if is_stopped s then (returned false, c) else x))
  woken-GivesUp run o c x h l = l
  woken-GivesUp init o c x h l = refl
  woken-GivesUp exit o c x h l = refl
  woken-GivesUp ping o c x h l = absurd h
  woken-GivesUp wait_for_pong o c x h l = absurd h
  woken-GivesUp wait_for_file_accept o c x h l = absurd h
  woken-GivesUp joined o c x h l = absurd h
  woken-GivesUp waiting_for_join o c x h l = absurd h

  late-GivesUp :
      (expired : Bool) (c : Client)
      → GivesUp (late J env rtc base64 paths options expired (returned false, c))
  late-GivesUp true c = refl
  late-GivesUp false c = tt

  calls-IsDerailed :
      (bs : List Callback) (c d : Client)
      → IsDerailed c.state
      → calls bs c ≡ done d
      → IsDerailed d.state
  unfolding calls
  calls-IsDerailed [] c d h e = subst (λ t. IsDerailed t.state) (done_inj e) h
  calls-IsDerailed (b ∷ bs) c d h e = by_call (calls-IsDerailed bs) (call J env base64 b c) refl e
    where
      by_call :
          ((t u : Client) → IsDerailed t.state → calls bs t ≡ done u → IsDerailed u.state)
          → (r : Run Client) → call J env base64 b c ≡ r
          → (elim r [ Run.fault ↦ Run.fault | done t ↦ calls bs t ]) ≡ done d
          → IsDerailed d.state
      by_call ih Run.fault k f = cc
      by_call ih (done t) k f =
          ih t d (IsDerailed-Change c.state t.state (call-Change J env base64 b c k) h) f

  -- Once the state is RUN while the worker waits for a join, as the end of a file sets it, the join
  -- does not come through: whatever other threads do then, our join's confirmation included, the
  -- wait goes on, or ends because of a stop, a closed connection or its time, and `JoinRooms` fails.
  pub awaiting_join-GivesUp :
      (bs : List Callback) (expired : Bool) (uuid : Text) (rooms : List Text) (task : Task)
      (c d : Client)
      → c.state ≡ run
      → calls bs c ≡ done d
      → GivesUp (step J env rtc base64 paths options expired uuid (awaiting_join rooms task) d)
  unfolding step
  awaiting_join-GivesUp bs expired uuid rooms task c d r e =
      woken-GivesUp d.state
        (late J env rtc base64 paths options expired (returned false, with_state exit d)) d
        (join_rooms J env rtc base64 paths options rooms task d)
        (calls-IsDerailed bs c d (subst IsDerailed (sym r) tt) e)
        (late-GivesUp expired (with_state exit d))
