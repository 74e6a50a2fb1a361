-- ===== src/PortServer/Asked.antt =====
-- The sockets that `Stop` of src/MessagePortServer.cpp asks to end, and those that are open.
use cloud_node.Base.{
  if◌then◌else◌, Bool-cases, ◌==◌, ==_iff, ==_refl, nat_ord, Text, text_ord, pair_ord, ℕ, ◌≡◌, refl,
  sym, ap, ◌∙◌, subst, inl, inr, false, none, some, List, [], ◌∷◌, arith,
}
use mathlib.Core.List.{Memᴰ}
use mathlib.Core.List.Memᴰ
use cloud_node.Base.Dict.{Dict, lookup, erase, lookup-erase}
use cloud_node.Server.{Ws}
use cloud_node.PortServer.{PortServer, is_socket, on_close, sockets}

-- Every open socket is the one on file under its id.
abbrev pub AllFiled : PortServer → Type 0
AllFiled s =
    (h : ℕ) (id : Text)
    → lookup h s.connected ≡ some id
    → (ws : Ws) × (lookup id s.clients ≡ some ws) × (ws.handle ≡ h) × (ws.x_client_id ≡ id)

-- Every open socket is one of these.
abbrev pub AllAmong : List Ws → Dict ℕ Text → Type 0
AllAmong wss connected =
    (h : ℕ) (id : Text)
    → lookup h connected ≡ some id
    → (ws : Ws) × Memᴰ ws wss × (ws.handle ≡ h) × (ws.x_client_id ≡ id)

sockets-Memᴰ :
    (id : Text) (ws : Ws) (clients : Dict Text Ws)
    → lookup id clients ≡ some ws
    → Memᴰ ws (sockets clients)
unfolding lookup
sockets-Memᴰ id ws [] e = absurd (ground (arith, e))
sockets-Memᴰ id ws ((j, w) ∷ clients) e = elim (Bool-cases (id == j)) [
  | inl same ↦ Memᴰ.head (ground (arith, same, e))
  | inr other ↦ Memᴰ.tail (sockets-Memᴰ id ws clients (ground (arith, other, e)))
]

pub AllFiled-AllAmong : (s : PortServer) → AllFiled s → AllAmong (sockets s.clients) s.connected
AllFiled-AllAmong s f h id e =
    let (ws, l, k, x) = f h id e in (ws, sockets-Memᴰ id ws s.clients l, k, x)

-- What is open after a socket has closed was open before, and is another socket.
pub lookup-erased :
    (h k : ℕ) (id : Text) (connected : Dict ℕ Text)
    → lookup h (erase k connected) ≡ some id
    → (lookup h connected ≡ some id) × ((h == k) ≡ false)
lookup-erased h k id connected e =
    let there : (if h == k then none else lookup h connected) ≡ some id =
      sym (lookup-erase h k connected) ∙ e in
    elim (Bool-cases (h == k)) [
      | inl same ↦ absurd (ground (arith, same, there))
      | inr other ↦ (ground (arith, other, there), other)
    ]

pub AllAmong-erase :
    (k : ℕ) (wss : List Ws) (connected : Dict ℕ Text)
    → AllAmong wss connected
    → AllAmong wss (erase k connected)
AllAmong-erase k wss connected a h id e = a h id (lookup-erased h k id connected e).0

-- One that is not open need not be named.
pub AllAmong-tail :
    (ws : Ws) (wss : List Ws) (connected : Dict ℕ Text)
    → (lookup ws.handle connected ≡ some ws.x_client_id → ⊥)
    → AllAmong (ws ∷ wss) connected
    → AllAmong wss connected
AllAmong-tail ws wss connected n a h id e =
    let (w, m, k, x) = a h id e in
    elim (Memᴰ.cases_cons m) [
      | inl same ↦
          let here : lookup w.handle connected ≡ some w.x_client_id =
            ap (λ j. lookup j connected) k ∙ (e ∙ ap some (sym x)) in
          absurd (n (subst (λ (v : Ws). lookup v.handle connected ≡ some v.x_client_id) same here))
      | inr rest ↦ (w, rest, k, x)
    ]

pub AllAmong-nil : (connected : Dict ℕ Text) → AllAmong [] connected → connected ≡ []
unfolding lookup
AllAmong-nil [] a = refl
AllAmong-nil ((k, id) ∷ connected) a =
    let (ws, m, _, _) = a k id (rw (==_refl k) refl) in absurd (Memᴰ.not-nil m)

pub AllFiled-on_close :
    (ws : Ws) (code : ℕ) (reason : Text) (s : PortServer)
    → AllFiled s
    → AllFiled (on_close ws code reason s)
unfolding on_close
AllFiled-on_close ws code reason s f h id e =
    let (open_before, other) = lookup-erased h ws.handle id s.connected e in
    let (w, l, k, x) = f h id open_before in (w, kept w l k other, k, x)
  where
    kept :
        (w : Ws)
        → lookup id s.clients ≡ some w
        → w.handle ≡ h
        → (h == ws.handle) ≡ false
        → lookup id (
            if is_socket (lookup ws.x_client_id s.clients) ws
            then erase ws.x_client_id s.clients
            else s.clients)
          ≡ some w
    kept w l k other = elim (Bool-cases (id == ws.x_client_id)) [
      | inl same ↦
          let mine : lookup ws.x_client_id s.clients ≡ some w =
            ap (λ j. lookup j s.clients) (sym ((==_iff id ws.x_client_id).0 same)) ∙ l in
          let foreign : is_socket (lookup ws.x_client_id s.clients) ws ≡ false =
            ap (λ o. is_socket o ws) mine ∙ (ap (λ j. j == ws.handle) k ∙ other) in
          rw foreign l
      | inr different ↦ elim (Bool-cases (is_socket (lookup ws.x_client_id s.clients) ws)) [
        | inl b ↦ rw b (lookup-erase id ws.x_client_id s.clients ∙ rw different l)
        | inr b ↦ rw b l
      ]
    ]
