-- ===== src/PortServer/Stopping.antt =====
-- src/MessagePortServer.cpp: how a `Stop` of a port that listens ends.
pub mod Loops
use cloud_node.Base.{
  Bool-cases, ◌==◌, ==_iff, ==_refl, nat_ord, Text, text, text_ord, pair_ord, ◌≡◌, refl, ap, subst,
  ◌⊎◌, inl, inr, Bool, true, false, Option, none, some, List, [], ◌∷◌, arith,
}
use mathlib.Core.List.{Memᴰ}
use mathlib.Core.List.Memᴰ
use cloud_node.Base.Dict.{lookup}
use cloud_node.Server.{Ws}
use cloud_node.PortServer.{on_message, on_close, request_stop, run_deferred}
use cloud_node.PortServer.Asked.{
  AllFiled, AllAmong, AllFiled-AllAmong, lookup-erased, AllAmong-erase, AllAmong-tail, AllAmong-nil,
  AllFiled-on_close,
}
use cloud_node.PortServer.Thread.{
  looping, returned, Serving, Step, listens, listens_not, tells, closes, ends, runs, returns, Steps,
  none_yet, more, OwnSteps, no_more, first, stop,
}

-- The thread has returned, and no socket is open.
abbrev pub IsEnded : Serving → Type 0
IsEnded s = (s.point ≡ returned) × (s.port.connected ≡ [])

-- The closing is deferred.
record Waits (s : Serving) : Type 0 where
  looping_on : s.point ≡ looping
  listening : s.port.listen_socket ≡ true
  deferred : s.deferred ≡ true
  unasked : s.ending ≡ []
  filed : AllFiled s.port

-- The closing has run.
record Closing (s : Serving) : Type 0 where
  looping_on : s.point ≡ looping
  unlistening : s.port.listen_socket ≡ false
  undeferred : s.deferred ≡ false
  asked : AllAmong s.ending s.port.connected

abbrev Phase : Serving → Type 0
Phase s = Waits s ⊎ (Closing s ⊎ IsEnded s)

Step-Waits : {s t : Serving} → Waits s → Step s t → Phase t
unfolding on_message on_close run_deferred
Step-Waits x (listens s p) = absurd (ground (arith, x.looping_on))
Step-Waits x (listens_not s p) = absurd (ground (arith, x.looping_on))
Step-Waits x (tells b ws t s p o) = inl (record {
  looping_on = x.looping_on;
  listening = x.listening;
  deferred = x.deferred;
  unasked = x.unasked;
  filed = x.filed;
})
Step-Waits x (closes ws code reason s p o) = inl (record {
  looping_on = x.looping_on;
  listening = x.listening;
  deferred = x.deferred;
  unasked = x.unasked;
  filed = AllFiled-on_close ws code reason s.port x.filed;
})
Step-Waits x (ends ws s p o m) = absurd (Memᴰ.not-nil (subst (Memᴰ ws) x.unasked m))
Step-Waits x (runs s p d) = inr (
    inl (record {
      looping_on = x.looping_on;
      unlistening = refl;
      undeferred = refl;
      asked = AllFiled-AllAmong s.port x.filed;
    }))
Step-Waits x (returns s p l c) = absurd (ground (arith, x.listening))

Step-Closing : {s t : Serving} → Closing s → Step s t → Phase t
unfolding on_message on_close
Step-Closing x (listens s p) = absurd (ground (arith, x.looping_on))
Step-Closing x (listens_not s p) = absurd (ground (arith, x.looping_on))
Step-Closing x (tells b ws t s p o) = inr (
    inl (record {
      looping_on = x.looping_on;
      unlistening = x.unlistening;
      undeferred = x.undeferred;
      asked = x.asked;
    }))
Step-Closing x (closes ws code reason s p o) = inr (
    inl (record {
      looping_on = x.looping_on;
      unlistening = x.unlistening;
      undeferred = x.undeferred;
      asked = AllAmong-erase ws.handle s.ending s.port.connected x.asked;
    }))
Step-Closing x (ends ws s p o m) = inr (
    inl (record {
      looping_on = x.looping_on;
      unlistening = x.unlistening;
      undeferred = x.undeferred;
      asked = AllAmong-erase ws.handle s.ending s.port.connected x.asked;
    }))
Step-Closing x (runs s p d) = absurd (ground (arith, x.undeferred))
Step-Closing x (returns s p l c) = inr (inr (refl, c))

Step-IsEnded : {s t : Serving} → IsEnded s → Step s t → Phase t
Step-IsEnded x (listens s p) = absurd (ground (arith, x.0))
Step-IsEnded x (listens_not s p) = absurd (ground (arith, x.0))
Step-IsEnded x (tells b ws t s p o) = absurd (ground (arith, x.0))
Step-IsEnded x (closes ws code reason s p o) = absurd (ground (arith, x.0))
Step-IsEnded x (ends ws s p o m) = absurd (ground (arith, x.0))
Step-IsEnded x (runs s p d) = absurd (ground (arith, x.0))
Step-IsEnded x (returns s p l c) = absurd (ground (arith, x.0))

Steps-Phase : {s t : Serving} → Phase s → Steps s t → Phase t
Steps-Phase x none_yet = x
Steps-Phase x (more u v) = elim (Steps-Phase x u) [
  | inl w ↦ Step-Waits w v
  | inr (inl c) ↦ Step-Closing c v
  | inr (inr e) ↦ Step-IsEnded e v
]

abbrev is_open : Ws → Option Text → Bool
is_open ws none = false
is_open ws (some id) = id == ws.x_client_id

is_open-true : (ws : Ws) (o : Option Text) → is_open ws o ≡ true → o ≡ some ws.x_client_id
is_open-true ws none h = cc
is_open-true ws (some id) h = ap some ((==_iff id ws.x_client_id).0 h)

is_open-false : (ws : Ws) (o : Option Text) → is_open ws o ≡ false → o ≡ some ws.x_client_id → ⊥
is_open-false ws o h e = absurd (ground (arith, ap (is_open ws) e, h, ==_refl ws.x_client_id))

abbrev Ends : Serving → Type 0
Ends s = (u : Serving) × OwnSteps s u × IsEnded u

-- The sockets that are left close one after another, and the loop returns.
finish :
    (wss : List Ws) (s : Serving)
    → s.point ≡ looping
    → s.port.listen_socket ≡ false
    → ((ws : Ws) → Memᴰ ws wss → Memᴰ ws s.ending)
    → AllAmong wss s.port.connected
    → Ends s
unfolding on_close
finish [] s p l m a =
    let e = AllAmong-nil s.port.connected a in
    let ended = record s { point = returned } in
    (ended, first (returns s p l e) tt (no_more ended), (refl, e))
finish (ws ∷ wss) s p l m a = elim (Bool-cases (is_open ws (lookup ws.handle s.port.connected))) [
  | inr e ↦
      finish wss s p l (λ w k. m w (Memᴰ.tail k))
        (AllAmong-tail ws wss s.port.connected
          (is_open-false ws (lookup ws.handle s.port.connected) e) a)
  | inl e ↦
      let next = record s { port = on_close ws 1001 (text "Server shutting down") s.port } in
      let (u, steps, over) =
        finish wss next p l (λ w k. m w (Memᴰ.tail k))
          (AllAmong-tail ws wss next.port.connected (gone ws)
            (AllAmong-erase ws.handle (ws ∷ wss) s.port.connected a)) in
      (
        u,
        first
            (ends ws s p (is_open-true ws (lookup ws.handle s.port.connected) e)
              (m ws (Memᴰ.head refl)))
            tt steps,
        over,
      )
]
  where
    gone :
        (w : Ws)
        → lookup w.handle (on_close w 1001 (text "Server shutting down") s.port).connected
          ≡ some w.x_client_id
        → ⊥
    gone w e =
        let other = (lookup-erased w.handle w.handle w.x_client_id s.port.connected e).1 in
        absurd (ground (arith, other, ==_refl w.handle))

Phase-Ends : (s : Serving) → Phase s → Ends s
unfolding run_deferred
Phase-Ends s (inr (inr e)) = (s, no_more s, e)
Phase-Ends s (inr (inl c)) = finish s.ending s c.looping_on c.unlistening (λ w k. k) c.asked
Phase-Ends s (inl w) =
    let next = record s {
      port = (run_deferred s.port).0;
      deferred = false;
      ending = (run_deferred s.port).1;
    } in
    let (u, steps, over) =
      finish next.ending next w.looping_on refl (λ v k. k) (AllFiled-AllAmong s.port w.filed) in
    (u, first (runs s w.looping_on w.deferred) tt steps, over)

-- A stop of a port that listens, whose open sockets are all on file under their ids: whatever has
-- happened since, while no socket opened, the port and its loop can come to the end alone, without any
-- client that does something. Then no socket is open and the thread has returned, for the join.
pub stop-returns :
    (s : Serving) {t : Serving}
    → s.point ≡ looping
    → s.port.is_running ≡ true
    → s.port.loop ≡ true
    → s.port.listen_socket ≡ true
    → s.ending ≡ []
    → AllFiled s.port
    → Steps (stop s) t
    → (u : Serving) × OwnSteps t u × IsEnded u
unfolding stop request_stop
stop-returns s {t} p r l k e f steps = Phase-Ends t (
    Steps-Phase
      (inl (record {
        looping_on = p;
        listening = k;
        deferred = ground (arith, r, l, k);
        unasked = e;
        filed = f;
      }))
      steps)
