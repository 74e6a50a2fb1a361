-- ===== src/PortServer/Tracking.antt =====
-- The table of clients of src/MessagePortServer.cpp, and the sockets that are open.
use cloud_node.Base.{
  if◌then◌else◌, is_some, ◌==◌, ==_iff, ==_refl, nat_ord, Text, text_ord, pair_ord, ℕ, ◌≡◌, refl,
  sym, ap, ◌∙◌, subst, Bool, true, false, Option, none, some, [],
}
use cloud_node.Base.Dict.{Dict, lookup, insert, erase, lookup-insert, lookup-erase}
use cloud_node.Server.{Ws}
use cloud_node.PortServer.Filing.{IsFiled, contradicted, if-IsFiled, insert-IsFiled, erase-IsFiled}
use cloud_node.PortServer.{
  PortServer, start, on_listen, on_open, on_message, is_socket, on_close, request_stop,
}

abbrev pub IsTracked : PortServer → Type 0
IsTracked s = (id : Text) → IsFiled s.connected id (lookup id s.clients)

-- What the callbacks of uWebSockets lead to: a socket that opens is not open, one that closes is.
pub data Reached : PortServer → Type 0 where
  fresh : (s : PortServer) → s.clients ≡ [] → Reached s
  starts :
      (s : PortServer) (b : Bool) {t : PortServer} → Reached s → start s ≡ some (t, b) → Reached t
  listens : (b : Bool) (s : PortServer) → Reached s → Reached (on_listen b s)
  opens :
      (ws : Ws) (s : PortServer)
      → Reached s
      → lookup ws.handle s.connected ≡ none
      → Reached (on_open ws s)
  tells :
      (b : Bool) (ws : Ws) (t : Text) (s : PortServer) → Reached s → Reached (on_message b ws t s)
  closes :
      (ws : Ws) (code : ℕ) (reason : Text) (s : PortServer)
      → Reached s
      → lookup ws.handle s.connected ≡ some ws.x_client_id
      → Reached (on_close ws code reason s)
  stops : (s : PortServer) → Reached s → Reached (request_stop s).0

on_open-IsTracked :
    (ws : Ws) (s : PortServer)
    → lookup ws.handle s.connected ≡ none
    → IsTracked s
    → IsTracked (on_open ws s)
unfolding on_open
on_open-IsTracked ws s e k id = by_present (is_some (lookup ws.x_client_id s.clients))
  where
    kept : IsFiled (insert ws.handle ws.x_client_id s.connected) id (lookup id s.clients)
    kept = insert-IsFiled ws.handle ws.x_client_id id (lookup id s.clients) s.connected e (k id)

    entered :
        id ≡ ws.x_client_id → IsFiled (insert ws.handle ws.x_client_id s.connected) id (some ws)
    entered i = (
      sym i,
      lookup-insert ws.handle ws.handle ws.x_client_id s.connected
          ∙ rw (==_refl ws.handle) (ap some (sym i)),
    )

    by_present :
        (b : Bool)
        → IsFiled
            (insert ws.handle ws.x_client_id s.connected)
            id
            (lookup id (if b then s.clients else insert ws.x_client_id ws s.clients))
    by_present true = kept
    by_present false =
        subst (IsFiled (insert ws.handle ws.x_client_id s.connected) id)
          (sym (lookup-insert id ws.x_client_id ws s.clients))
          (if-IsFiled (insert ws.handle ws.x_client_id s.connected) id (id == ws.x_client_id)
            (some ws) (lookup id s.clients) (λ same. entered ((==_iff id ws.x_client_id).0 same))
            (λ _. kept))

on_close-IsTracked :
    (ws : Ws) (code : ℕ) (reason : Text) (s : PortServer)
    → lookup ws.handle s.connected ≡ some ws.x_client_id
    → IsTracked s
    → IsTracked (on_close ws code reason s)
unfolding on_close
on_close-IsTracked ws code reason s e k id =
    by_socket (is_socket (lookup ws.x_client_id s.clients) ws) refl
  where
    kept :
        (id ≡ ws.x_client_id → is_socket (lookup id s.clients) ws ≡ false)
        → IsFiled (erase ws.handle s.connected) id (lookup id s.clients)
    kept n = erase-IsFiled ws id (lookup id s.clients) s.connected e n (k id)

    differs :
        (id == ws.x_client_id) ≡ false
        → id ≡ ws.x_client_id
        → is_socket (lookup id s.clients) ws ≡ false
    differs d i = absurd (contradicted (sym ((==_iff id ws.x_client_id).1 i) ∙ d))

    by_socket :
        (b : Bool)
        → is_socket (lookup ws.x_client_id s.clients) ws ≡ b
        → IsFiled
            (erase ws.handle s.connected)
            id
            (lookup id (if b then erase ws.x_client_id s.clients else s.clients))
    by_socket true h =
        subst (IsFiled (erase ws.handle s.connected) id)
          (sym (lookup-erase id ws.x_client_id s.clients))
          (if-IsFiled (erase ws.handle s.connected) id (id == ws.x_client_id) none
            (lookup id s.clients) (λ _. tt) (λ d. kept (differs d)))
    by_socket false h = kept (λ i. ap (λ j. is_socket (lookup j s.clients) ws) i ∙ h)

abbrev IsTrackedNext : Option (PortServer × Bool) → Type 0
IsTrackedNext none = Unit {0}
IsTrackedNext (some (t, b)) = IsTracked t

start-IsTrackedNext : (s : PortServer) → IsTracked s → IsTrackedNext (start s)
unfolding start
start-IsTrackedNext s k = by_tests s.is_running s.joinable
  where
    by_tests :
        (r j : Bool)
        → IsTrackedNext (
            if r
            then some (s, false)
            else if j
            then none
            else some (record s { stop_requested = false; joinable = true }, true))
    by_tests true j = k
    by_tests false true = tt
    by_tests false false = k

-- Whatever callbacks come, in any order, and however the port is started and stopped: each client of the
-- table is an open socket, filed under the id that it connected with.
pub Reached-IsFiled :
    {s : PortServer} → Reached s → (id : Text) → IsFiled s.connected id (lookup id s.clients)
unfolding on_listen on_message request_stop lookup
Reached-IsFiled (fresh s e) = λ id. subst (λ m. IsFiled s.connected id (lookup id m)) (sym e) tt
Reached-IsFiled (starts s b r e) = subst IsTrackedNext e (start-IsTrackedNext s (Reached-IsFiled r))
Reached-IsFiled (listens true s r) = Reached-IsFiled r
Reached-IsFiled (listens false s r) = Reached-IsFiled r
Reached-IsFiled (opens ws s r e) = on_open-IsTracked ws s e (Reached-IsFiled r)
Reached-IsFiled (tells b ws t s r) = Reached-IsFiled r
Reached-IsFiled (closes ws code reason s r e) =
    on_close-IsTracked ws code reason s e (Reached-IsFiled r)
Reached-IsFiled (stops s r) = Reached-IsFiled r

lookup_erased :
    (k : Text) (m : Dict Text Ws) (b : Bool)
    → b ≡ true
    → lookup k (if b then erase k m else m) ≡ none
lookup_erased k m true h = lookup-erase k k m ∙ rw (==_refl k) refl
lookup_erased k m false h = cc

-- A client that connects again under its id while its old socket is in the table: once the old socket
-- has closed, the new one is open and not in the table, so that a stop does not end it.
pub on_open-untracked :
    (old ws : Ws) (code : ℕ) (reason : Text) (s : PortServer)
    → lookup ws.x_client_id s.clients ≡ some old
    → old.x_client_id ≡ ws.x_client_id
    → (ws.handle == old.handle) ≡ false
    → (lookup ws.x_client_id (on_close old code reason (on_open ws s)).clients ≡ none)
      × (lookup ws.handle (on_close old code reason (on_open ws s)).connected ≡ some ws.x_client_id)
unfolding on_open on_close
on_open-untracked old ws code reason s h i d = (
  rw (i, h)
      (lookup_erased ws.x_client_id s.clients
        (is_socket (lookup ws.x_client_id s.clients) (record old { x_client_id = ws.x_client_id }))
        (ap (λ o. is_socket o (record old { x_client_id = ws.x_client_id })) h
          ∙ ==_refl old.handle)),
  lookup-erase ws.handle old.handle (insert ws.handle ws.x_client_id s.connected)
      ∙ rw d (
          lookup-insert ws.handle ws.handle ws.x_client_id s.connected
          ∙ rw (==_refl ws.handle) refl),
)
