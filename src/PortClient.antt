-- ===== src/PortClient.antt =====
-- src/MessagePortClient.cpp: the client's end of the message port. The web socket is a parameter; what
-- is asked of it is recorded. A socket is known by its number among those that were made.
pub mod Threads
pub mod Ends
use cloud_node.Base.{
  if◌then◌else◌, is_some, nat_ord, Text, text, text_ord, pair_ord, ℕ, suc, Bool, true, false, not,
  ◌||◌, Option, none, some, List, [], ◌∷◌, ◌++◌,
}
use cloud_node.Base.Decimal.{decimal}

pub data SocketCall : Type 0 where
  started : ℕ → SocketCall
  stopped : ℕ → SocketCall
  sent : ℕ → Text → SocketCall

-- A callback that was called.
pub data Heard : Type 0 where
  opened : Heard
  message : Text → Heard
  closed : ℕ → Text → Heard

-- Where the thread is: there is none, or it is before `MakeSocket`, at `start()`, at the wait for the
-- connection's end, behind it, at the wait for the delay, or returned and not yet joined.
pub data Point : Type 0 where
  absent making starting waiting closing delaying finished : Point

pub record PortClient : Type 0 where
  pub url : Text
  pub is_running : Bool
  pub stop_requested : Bool
  pub disconnected : Bool
  pub socket : Option ℕ
  pub on_open : Bool
  pub on_message : Bool
  pub on_close : Bool
  pub made : ℕ
  pub calls : List SocketCall
  pub heard : List Heard
  pub point : Point

abbrev pub url_of : Text → ℕ → Text
url_of address port = address ++ (text ":" ++ decimal port)

abbrev pub is_absent : Point → Bool
is_absent absent = true
is_absent _ = false

-- `Start`: `none` where the program ends, since a thread is assigned to one that is still joinable.
unfoldable pub start : Text → ℕ → PortClient → Option (PortClient × Bool)
start address port s =
    if s.is_running
    then some (s, false)
    else if is_absent s.point
    then some (record s { stop_requested = false; url = url_of address port; point = making }, true)
    else none

abbrev pub at_point : Point → PortClient → PortClient
at_point p s = record s { point = p }

-- A call of the socket, which is there.
abbrev pub calls_of : Option ℕ → (ℕ → SocketCall) → List SocketCall
calls_of none call = []
calls_of (some n) call = call n ∷ []

abbrev pub of_socket : (ℕ → SocketCall) → PortClient → PortClient
of_socket call s = record s { calls = s.calls ++ calls_of s.socket call }

-- A step of the thread from a point, up to the next place where it does not hold the mutex: none where
-- its wait goes on. `expired` says whether the delay is over.
abbrev pub step_at : Point → Bool → PortClient → Option PortClient
step_at absent expired s = none
step_at making expired s =
    if s.stop_requested
    then some (record s { made = suc s.made; point = finished })
    else some (record s {
      disconnected = false;
      socket = some s.made;
      made = suc s.made;
      point = starting;
    })
step_at starting expired s = some (at_point waiting (of_socket started s))
step_at waiting expired s =
    if s.disconnected || s.stop_requested then some (at_point closing s) else none
step_at closing expired s =
    some (at_point (if s.stop_requested then finished else delaying) (of_socket stopped s))
step_at delaying expired s =
    if s.stop_requested
    then some (at_point finished s)
    else if expired
    then some (at_point making s)
    else none
step_at finished expired s = none

unfoldable pub step : Bool → PortClient → Option PortClient
step expired s = step_at s.point expired s

-- What the socket tells.
pub data Event : Type 0 where
  opens : Event
  says : Text → Event
  closes : ℕ → Text → Event
  fails : Event

-- A callback is called if it is set.
abbrev pub heard_of : Bool → Heard → List Heard
heard_of set heard = if set then heard ∷ [] else []

abbrev pub told : Bool → Heard → PortClient → PortClient
told set heard s = record s { heard = s.heard ++ heard_of set heard }

-- The callback of `MakeSocket`
unfoldable pub on_event : Event → PortClient → PortClient
on_event opens s = told s.on_open opened (record s { is_running = not s.stop_requested })
on_event (says t) s = told s.on_message (message t) s
on_event (closes code reason) s =
    told s.on_close (closed code reason) (record s { is_running = false; disconnected = true })
on_event fails s = record s { disconnected = true; is_running = false }

-- `Send`, where `takes` is whether the socket takes the message
unfoldable pub send : Bool → Text → PortClient → PortClient × Bool
send takes t s =
    if not (is_some s.socket) || not s.is_running
    then (s, false)
    else (of_socket (λ n. sent n t) s, takes)

-- `WaitUntilRunning`, which waits while it yields none
unfoldable pub wait_until_running : PortClient → Option Bool
wait_until_running s = if s.is_running || s.stop_requested then some s.is_running else none

-- `WebRTC::SendMessage`
unfoldable pub send_message : Bool → Text → PortClient → Option (PortClient × Bool)
unfolding wait_until_running send
send_message takes t s = elim (wait_until_running s) [
  | none ↦ none
  | some running ↦ some (if running then send takes t s else (s, false))
]

-- `Stop`: what it does before it joins the thread, and the join, which waits for the thread's return.
unfoldable pub request_stop : PortClient → PortClient
request_stop s = record s { is_running = false; stop_requested = true }

abbrev pub join_at : Point → PortClient → Option PortClient
join_at absent s = some s
join_at finished s = some (at_point absent s)
join_at _ s = none

unfoldable pub join : PortClient → Option PortClient
join s = join_at s.point s
