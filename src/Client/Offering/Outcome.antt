-- ===== src/Client/Offering/Outcome.antt =====
-- What an offer and the answer to it do to the queues.
use cloud_node.Base.{
  Bool-cases, Option-cases, nat_ord, Text, text_ord, pair_ord, ◌≡◌, refl, sym, subst, inl, inr,
  false, Option, none, some, List, [], ◌∷◌, ◌++◌, arith,
}
use cloud_node.Base.Dict.{lookup}
use cloud_node.Json.{Json, done, ℤ}
use cloud_node.Client.FilePath.{offered_name, destination}
use cloud_node.Client.State.{Key, IncomingFile, Client, Env}
use cloud_node.Client.Incoming.Queues.{
  Closed, QueuesRun, start_next_incoming-Settled, put_queue-QueuesRun,
}
use cloud_node.Client.Offering.{
  Offer, offer_of, on_offered, same_crc, queue_of, appended, enqueue_incoming, receive_at,
  send_file_accept, send_file_reject, on_file_offer,
}

Closed-append :
    (q : List IncomingFile) (f : IncomingFile) → Closed q → f.is_open ≡ false → Closed (q ++ f ∷ [])
Closed-append [] f h o = (o, tt)
Closed-append (g ∷ q) f h o = (h.0, Closed-append q f h.1 o)

module _ (J : Json) (env : Env) where
  -- What an answer to an offer leaves alone.
  pub record IsAnswered (c d : Client) : Type 0 where
    pub incoming_files : d.incoming_files ≡ c.incoming_files
    pub disk : d.disk ≡ c.disk

  pub send_file_accept-IsAnswered :
      (doc : J.Value) (c : Client) → IsAnswered c (send_file_accept J env doc c)
  unfolding send_file_accept
  send_file_accept-IsAnswered doc c = record { incoming_files = ground arith; disk = ground arith }

  pub send_file_reject-IsAnswered :
      (doc : J.Value) (c : Client) → IsAnswered c (send_file_reject J env doc c)
  unfolding send_file_reject
  send_file_reject-IsAnswered doc c = record { incoming_files = ground arith; disk = ground arith }

  appended-QueuesRun :
      (key : Key) (f : IncomingFile) (o : Option (List IncomingFile)) (c : Client)
      → lookup key c.incoming_files ≡ o
      → f.is_open ≡ false
      → QueuesRun c.incoming_files
      → QueuesRun (appended J env key f (queue_of J env o) c).incoming_files
  appended-QueuesRun key f none c e o r =
      put_queue-QueuesRun env key _ c.incoming_files
        (start_next_incoming-Settled env (f ∷ []) c.received_paths c.disk (o, tt)) r
  appended-QueuesRun key f (some []) c e o r = absurd (r key [] e)
  appended-QueuesRun key f (some (g ∷ q)) c e o r =
      let (a, b, h) = r key (g ∷ q) e in
      put_queue-QueuesRun env key ((g ∷ q) ++ f ∷ []) c.incoming_files (a, b, Closed-append q f h o)
        r

  enqueue_incoming-QueuesRun :
      (key : Key) (path : Text) (size : ℤ) (c : Client)
      → QueuesRun c.incoming_files
      → QueuesRun (enqueue_incoming J env key path size c).incoming_files
  unfolding enqueue_incoming
  enqueue_incoming-QueuesRun key path size c r =
      appended-QueuesRun key _ (lookup key c.incoming_files) c refl refl r

  receive_at-QueuesRun :
      (doc : J.Value) (offer : Offer) (path : Text) (c : Client)
      → QueuesRun c.incoming_files
      → QueuesRun (receive_at J env doc offer path c).incoming_files
  unfolding receive_at
  receive_at-QueuesRun doc offer path c r = elim (Bool-cases (env.prepares path)) [
    | inl e ↦ elim (Bool-cases (same_crc J env offer.crc (env.crc path))) [
      | inl s ↦
          rw (e, s) (subst QueuesRun (sym (send_file_reject-IsAnswered doc c).incoming_files) r)
      | inr s ↦
          let next = enqueue_incoming J env (offer.peer, offer.room) path offer.size c in
          rw (e, s)
            (subst QueuesRun (sym (send_file_accept-IsAnswered doc next).incoming_files)
              (enqueue_incoming-QueuesRun (offer.peer, offer.room) path offer.size c r))
    ]
    | inr e ↦ rw e r
  ]

  -- An offer keeps the queues running: it ends in a client each of whose queues has a first file
  -- that is open and lacks something, with the files behind it not open.
  pub on_file_offer-QueuesRun :
      (doc : J.Value) (c : Client)
      → QueuesRun c.incoming_files
      → (d : Client) × (on_file_offer J env doc c ≡ done d) × QueuesRun d.incoming_files
  unfolding on_file_offer
  on_file_offer-QueuesRun doc c r = (_, refl, by_offer (offer_of J env doc))
    where
      by_offer : (o : Option Offer) → QueuesRun (on_offered J env doc o c).incoming_files
      by_offer none = r
      by_offer (some offer) = elim (Option-cases (offered_name offer.name)) [
        | inl e ↦ rw e r
        | inr (names, e) ↦
            rw e (receive_at-QueuesRun doc offer (destination env.directory names) c r)
      ]
