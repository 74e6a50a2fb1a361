-- ===== src/PortClient/Threads.antt =====
-- The thread of src/MessagePortClient.cpp among the socket's callbacks and the calls of the program.
use cloud_node.Base.{
  if◌then◌else◌, is_some, nat_ord, Text, text_ord, pair_ord, ℕ, ◌≡◌, refl, sym, subst, Bool, true,
  false, not, ◌||◌, Option, none, some,
}
use cloud_node.PortClient.{
  sent, Point, absent, making, starting, waiting, closing, delaying, finished, PortClient, url_of,
  start, at_point, of_socket, is_absent, step_at, step, Event, opens, says, closes, fails, on_event,
  send, request_stop, join_at, join,
}

-- Between `start()` and `stop()` of a socket it tells events.
abbrev pub is_live : Point → Bool
is_live waiting = true
is_live closing = true
is_live _ = false

-- A client that is running has a socket and is not asked to stop, and a socket that is being started,
-- listened to or stopped is there.
abbrev HasSocket : Point → Option ℕ → Type 0
HasSocket starting o = is_some o ≡ true
HasSocket waiting o = is_some o ≡ true
HasSocket closing o = is_some o ≡ true
HasSocket _ o = Unit {0}

abbrev pub IsSound : PortClient → Type 0
IsSound s =
    ((s.is_running ≡ true) → (is_some s.socket ≡ true) × (s.stop_requested ≡ false))
    × HasSocket s.point s.socket

-- What the program, the thread and the socket lead to, in any order.
pub data Reached : PortClient → Type 0 where
  fresh : (s : PortClient) → s.is_running ≡ false → s.point ≡ absent → Reached s
  starts :
      (address : Text) (port : ℕ) (s : PortClient) (b : Bool) {t : PortClient}
      → Reached s
      → start address port s ≡ some (t, b)
      → Reached t
  steps :
      (expired : Bool) (s : PortClient) {t : PortClient}
      → Reached s
      → step expired s ≡ some t
      → Reached t
  tells : (e : Event) (s : PortClient) → Reached s → is_live s.point ≡ true → Reached (on_event e s)
  sends : (takes : Bool) (t : Text) (s : PortClient) → Reached s → Reached (send takes t s).0
  stops : (s : PortClient) → Reached s → Reached (request_stop s)
  joins : (s : PortClient) {t : PortClient} → Reached s → join s ≡ some t → Reached t

abbrev IsSoundNext : Option PortClient → Type 0
IsSoundNext none = Unit {0}
IsSoundNext (some t) = IsSound t

if-IsSoundNext :
    (b : Bool) (x y : Option PortClient)
    → (b ≡ true → IsSoundNext x)
    → (b ≡ false → IsSoundNext y)
    → IsSoundNext (if b then x else y)
if-IsSoundNext true x y f g = f refl
if-IsSoundNext false x y f g = g refl

if-HasSocket : (b : Bool) (o : Option ℕ) → HasSocket (if b then finished else delaying) o
if-HasSocket true o = tt
if-HasSocket false o = tt

step_at-IsSound :
    (p : Point) (expired : Bool) (s : PortClient)
    → HasSocket p s.socket
    → IsSound s
    → IsSoundNext (step_at p expired s)
step_at-IsSound absent expired s h k = tt
step_at-IsSound making expired s h k =
    if-IsSoundNext s.stop_requested _ _ (λ _. (k.0, tt)) (λ _. (λ r. (refl, (k.0 r).1), refl))
step_at-IsSound starting expired s h k = (k.0, h)
step_at-IsSound waiting expired s h k =
    if-IsSoundNext (s.disconnected || s.stop_requested) _ none (λ _. (k.0, h)) (λ _. tt)
step_at-IsSound closing expired s h k = (k.0, if-HasSocket s.stop_requested s.socket)
step_at-IsSound delaying expired s h k =
    if-IsSoundNext s.stop_requested _ _ (λ _. (k.0, tt))
      (λ _. if-IsSoundNext expired (some (at_point making s)) none (λ _. (k.0, tt)) (λ _. tt))
step_at-IsSound finished expired s h k = tt

live-socket : (p : Point) (o : Option ℕ) → is_live p ≡ true → HasSocket p o → is_some o ≡ true
live-socket waiting s l h = h
live-socket closing s l h = h
live-socket absent s l h = cc
live-socket making s l h = cc
live-socket starting s l h = cc
live-socket delaying s l h = cc
live-socket finished s l h = cc

on_event-IsSound :
    (e : Event) (s : PortClient) → is_live s.point ≡ true → IsSound s → IsSound (on_event e s)
unfolding on_event
on_event-IsSound opens s l k =
    (λ r. (live-socket s.point s.socket l k.1, not_true s.stop_requested r), k.1)
  where
    not_true : (b : Bool) → not b ≡ true → b ≡ false
    not_true true h = cc
    not_true false h = refl
on_event-IsSound (says t) s l k = k
on_event-IsSound (closes code reason) s l k = (λ r. cc, k.1)
on_event-IsSound fails s l k = (λ r. cc, k.1)

send-IsSound : (takes : Bool) (t : Text) (s : PortClient) → IsSound s → IsSound (send takes t s).0
unfolding send
send-IsSound takes t s k = by_test (not (is_some s.socket) || not s.is_running)
  where
    by_test :
        (b : Bool)
        → IsSound
            (if◌then◌else◌ {A = PortClient × Bool} b
              (s, false)
              (of_socket (λ n. sent n t) s, takes)).0
    by_test true = k
    by_test false = k

abbrev IsSoundStart : Option (PortClient × Bool) → Type 0
IsSoundStart none = Unit {0}
IsSoundStart (some (t, b)) = IsSound t

start-IsSoundStart :
    (address : Text) (port : ℕ) (s : PortClient) → IsSound s → IsSoundStart (start address port s)
unfolding start
start-IsSoundStart address port s k = by_tests s.is_running (is_absent s.point)
  where
    by_tests :
        (r a : Bool)
        → IsSoundStart (
            if r
            then some (s, false)
            else if a
            then some (
              record s { stop_requested = false; url = url_of address port; point = making },
              true,
            )
            else none)
    by_tests true a = k
    by_tests false true = (λ r. ((k.0 r).0, refl), tt)
    by_tests false false = tt

join_at-IsSound : (p : Point) (s : PortClient) → IsSound s → IsSoundNext (join_at p s)
join_at-IsSound absent s k = k
join_at-IsSound finished s k = (k.0, tt)
join_at-IsSound making s k = tt
join_at-IsSound starting s k = tt
join_at-IsSound waiting s k = tt
join_at-IsSound closing s k = tt
join_at-IsSound delaying s k = tt

IsSoundNext-IsSound :
    (o : Option PortClient) {t : PortClient} → IsSoundNext o → o ≡ some t → IsSound t
IsSoundNext-IsSound o h e = subst IsSoundNext e h

-- Whatever the program calls, the thread does and the socket tells, in any order: a client that is
-- running has a socket and is not asked to stop; and where the thread starts a socket, waits for its
-- end or stops it, there is one.
pub Reached-IsSound : {s : PortClient} → Reached s → IsSound s
unfolding step join request_stop
Reached-IsSound (fresh s r a) = (λ e. cc, subst (λ p. HasSocket p s.socket) (sym a) tt)
Reached-IsSound (starts address port s b r e) =
    subst IsSoundStart e (start-IsSoundStart address port s (Reached-IsSound r))
Reached-IsSound (steps expired s r e) =
    let k = Reached-IsSound r in
    IsSoundNext-IsSound (step_at s.point expired s) (step_at-IsSound s.point expired s k.1 k) e
Reached-IsSound (tells e s r l) = on_event-IsSound e s l (Reached-IsSound r)
Reached-IsSound (sends takes t s r) = send-IsSound takes t s (Reached-IsSound r)
Reached-IsSound (stops s r) = (λ e. cc, (Reached-IsSound r).1)
Reached-IsSound (joins s r e) =
    IsSoundNext-IsSound (join_at s.point s) (join_at-IsSound s.point s (Reached-IsSound r)) e
