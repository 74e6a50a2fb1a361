-- ===== src/Client/Callbacks/States.antt =====
-- What a callback can do to the state of a client.
use cloud_node.Base.{
  if◌then◌else◌, Bool-cases, length, ◌==◌, nat_ord, Text, text, text_ord, pair_ord, ℕ, ◌+◌, ◌≡◌,
  refl, subst, ◌⊎◌, inl, inr, Bool, true, false, ◌&&◌, Option, none, some, List, [], ◌∷◌, arith,
}
use cloud_node.Base.Dict.{lookup}
use cloud_node.Client.FilePath.{offered_name, destination}
use cloud_node.Json.{ℤ, Json, Run, done, fault, array_member}
use cloud_node.Client.State.{
  ClientState, init, waiting_for_join, joined, run, exit, ◌is◌, Key, IncomingFile, PendingOffer,
  Client, Env,
}
use cloud_node.Client.Session
use cloud_node.Client.Session.{
  on_news, left, on_leave_values, on_leave_request, leave_request, peer_set, join_news,
  take_pending_offer, accepted, rejected,
}
use cloud_node.Client.Incoming.{
  Progress, unfinished, complete, failed, exceeded, progress, finish_front, after_write, on_queue,
  write_front, on_incoming_chunk,
}
use cloud_node.Client.Offering
use cloud_node.Client.Offering.{
  Offer, offer_of, receive_at, send_file_accept, send_file_reject, enqueue_incoming, received_as,
  on_offered,
}

-- The state stays, or begins anew, runs or is stopped, or was waiting for a join and is joined.
pub data Change (s t : ClientState) : Type 0 where
  same : t ≡ s → Change s t
  begins : t ≡ init → Change s t
  runs : t ≡ run → Change s t
  stops : t ≡ exit → Change s t
  joins : s ≡ waiting_for_join → t ≡ joined → Change s t

is_waiting : (s : ClientState) → (s is waiting_for_join) ≡ true → s ≡ waiting_for_join
is_waiting waiting_for_join h = refl
is_waiting init h = cc
is_waiting joined h = cc
is_waiting run h = cc
is_waiting ClientState.ping h = cc
is_waiting ClientState.wait_for_pong h = cc
is_waiting ClientState.wait_for_file_accept h = cc
is_waiting exit h = cc

-- Each outcome that is not a fault has a state that is kept, or changed as said.
abbrev pub Kept : Client → Run Client → Type 0
Kept c fault = Unit {0}
Kept c (done d) = d.state ≡ c.state

abbrev pub Changed : Client → Run Client → Type 0
Changed c fault = Unit {0}
Changed c (done d) = Change c.state d.state

pub Kept-Changed : (c : Client) (r : Run Client) → Kept c r → Changed c r
Kept-Changed c fault k = tt
Kept-Changed c (done d) k = same k

pub runs_or_same : {s t : ClientState} → (t ≡ s) ⊎ (t ≡ run) → Change s t
runs_or_same (inl e) = same e
runs_or_same (inr e) = runs e

module _ (J : Json) (env : Env) where
  pub on_join-Changed : (doc : J.Value) (c : Client) → Changed c (Session.on_join J env doc c)
  unfolding Session.on_join
  on_join-Changed doc c = by_news (join_news J env doc)
    where
      by_news : (o : Option (Text × Text × List Text)) → Change c.state (on_news J env o c).state
      by_news none = same refl
      by_news (some (room, peer, peers)) =
          elim (Bool-cases
            ((c.state is waiting_for_join) && (room == c.room && peer == env.name))) [
              | inl e ↦ rw e (joins (is_waiting c.state (ground arith)) refl)
              | inr e ↦ rw e (same refl)
            ]

  left-Kept :
      (room : Text) (o : Option (List Text)) (c : Client) → (left J env room o c).state ≡ c.state
  left-Kept room none c = refl
  left-Kept room (some peers) c = refl

  pub on_leave-Kept : (doc : J.Value) (c : Client) → Kept c (Session.on_leave J env doc c)
  unfolding Session.on_leave
  on_leave-Kept doc c = by_request (leave_request J env doc)
    where
      by_values :
          (room : Text) (o : Option (List J.Value)) (d : Client)
          → Kept d (on_leave_values J env room o d)
      by_values room none d = tt
      by_values room (some values) d = left-Kept room (peer_set J env values []) d

      by_request : (o : Option (Text × Text)) → Kept c (on_leave_request J env doc o c)
      by_request none = refl
      by_request (some (room, peer)) = by_values room (array_member J (text "peers") doc) _

  accepted-state :
      (o : Option PendingOffer) (c : Client)
      → ((accepted J env o c).state ≡ c.state) ⊎ ((accepted J env o c).state ≡ run)
  accepted-state o c = ground arith

  rejected-state :
      (o : Option PendingOffer) (c : Client)
      → ((rejected J env o c).state ≡ c.state) ⊎ ((rejected J env o c).state ≡ run)
  rejected-state o c = ground arith

  take-state : (doc : J.Value) (c : Client) → (take_pending_offer J env doc c).0.state ≡ c.state
  unfolding take_pending_offer
  take-state doc c = ground arith

  pub on_file_accept-Changed :
      (doc : J.Value) (c : Client) → Changed c (Session.on_file_accept J env doc c)
  unfolding Session.on_file_accept
  on_file_accept-Changed doc c =
      let (d, o) = take_pending_offer J env doc c in
      runs_or_same (
        subst
          (λ (s : ClientState). (accepted J env o d).state ≡ s ⊎ (accepted J env o d).state ≡ run)
          (take-state doc c) (accepted-state o d))

  pub on_file_reject-Changed :
      (doc : J.Value) (c : Client) → Changed c (Session.on_file_reject J env doc c)
  unfolding Session.on_file_reject
  on_file_reject-Changed doc c =
      let (d, o) = take_pending_offer J env doc c in
      runs_or_same (
        subst
          (λ (s : ClientState). (rejected J env o d).state ≡ s ⊎ (rejected J env o d).state ≡ run)
          (take-state doc c) (rejected-state o d))

  pub on_ping_pong-Changed :
      (doc : J.Value) (c : Client) → Changed c (Session.on_ping_pong J env doc c)
  unfolding Session.on_ping_pong
  on_ping_pong-Changed doc c = runs_or_same (ground arith)

  pub on_file_complete-Kept :
      (doc : J.Value) (c : Client) → Kept c (Session.on_file_complete J env doc c)
  unfolding Session.on_file_complete
  on_file_complete-Kept doc c = refl

  send_file_accept-state :
      (doc : J.Value) (c : Client) → (send_file_accept J env doc c).state ≡ c.state
  unfolding send_file_accept
  send_file_accept-state doc c = ground arith

  send_file_reject-state :
      (doc : J.Value) (c : Client) → (send_file_reject J env doc c).state ≡ c.state
  unfolding send_file_reject
  send_file_reject-state doc c = ground arith

  enqueue_incoming-state :
      (key : Key) (path : Text) (size : ℤ) (c : Client)
      → (enqueue_incoming J env key path size c).state ≡ c.state
  unfolding enqueue_incoming
  enqueue_incoming-state key path size c = ground arith

  receive_at-state :
      (doc : J.Value) (offer : Offer) (path : Text) (c : Client)
      → (receive_at J env doc offer path c).state ≡ c.state
  unfolding receive_at
  receive_at-state doc offer path c = ground (
    arith,
    send_file_reject-state doc c,
    send_file_accept-state doc (enqueue_incoming J env (offer.peer, offer.room) path offer.size c),
    enqueue_incoming-state (offer.peer, offer.room) path offer.size c,
  )

  pub on_file_offer-Kept :
      (doc : J.Value) (c : Client) → Kept c (Offering.on_file_offer J env doc c)
  unfolding Offering.on_file_offer
  on_file_offer-Kept doc c = by_offer (offer_of J env doc)
    where
      by_name :
          (offer : Offer) (o : Option (List Text))
          → (received_as J env doc offer o c).state ≡ c.state
      by_name offer none = refl
      by_name offer (some names) = receive_at-state doc offer (destination env.directory names) c

      by_offer : (o : Option Offer) → (on_offered J env doc o c).state ≡ c.state
      by_offer none = refl
      by_offer (some offer) = by_name offer (offered_name offer.name)

  after_write-state :
      (p : Progress env) (key : Key) (f : IncomingFile) (q : List IncomingFile) (n : ℕ) (c : Client)
      → ((after_write env p key f q n c).state ≡ c.state)
        ⊎ ((after_write env p key f q n c).state ≡ run)
  unfolding finish_front
  after_write-state unfinished key f q n c = inl refl
  after_write-state complete key f q n c = inr refl
  after_write-state failed key f q n c = inl refl
  after_write-state exceeded key f q n c = inl refl

  pub on_incoming_chunk-state :
      (key : Key) (bytes : Text) (c : Client)
      → ((on_incoming_chunk env key bytes c).state ≡ c.state)
        ⊎ ((on_incoming_chunk env key bytes c).state ≡ run)
  unfolding on_incoming_chunk write_front
  on_incoming_chunk-state key bytes c = by_queue (lookup key c.incoming_files)
    where
      if_open :
          (b : Bool) (d : Client)
          → (d.state ≡ c.state) ⊎ (d.state ≡ run)
          → ((if b then d else c).state ≡ c.state) ⊎ ((if b then d else c).state ≡ run)
      if_open true d h = h
      if_open false d h = inl refl

      by_queue :
          (o : Option (List IncomingFile))
          → ((on_queue env o key bytes c).state ≡ c.state)
            ⊎ ((on_queue env o key bytes c).state ≡ run)
      by_queue none = inl refl
      by_queue (some []) = inl refl
      by_queue (some (f ∷ q)) = if_open f.is_open (write_front env key f q bytes c) (
          after_write-state (progress env f (f.written + length bytes)) key f q
            (f.written + length bytes) _)
