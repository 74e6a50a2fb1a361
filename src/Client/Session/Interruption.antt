-- ===== src/Client/Session/Interruption.antt =====
-- A connection that is lost, and what survives it.
use cloud_node.Base.{
  Bool-cases, length, ==_refl, nat_ord, Text, text_ord, pair_ord, ℕ, ◌+◌, ◌<◌, ◌≡◌, refl, ap, ◌∙◌,
  inl, inr, true, false, Option, some, List, [], ◌∷◌, ◌++◌, arith,
}
use cloud_node.Base.Dict.{Dict, lookup, insert, lookup-insert}
use cloud_node.Json.{Json, ℤ}
use cloud_node.Client.State.{Key, IncomingFile, Client, Env}
use cloud_node.Client.Incoming.{contents, write_front, on_queue, on_incoming_chunk}
use cloud_node.Client.Incoming.Transfer.{front, progress-unfinished}
use cloud_node.Client.Offering.{
  Offer, same_crc, queue_of, appended, enqueue_incoming, send_file_accept, send_file_reject,
  receive_at,
}
use cloud_node.Client.Offering.Outcome.{
  IsAnswered, send_file_accept-IsAnswered, send_file_reject-IsAnswered,
}
use cloud_node.Client.Session.{on_message_open, on_message_close}

module _ (J : Json) (env : Env) where
  -- The file at the front of a queue is open at a place, and the disk is that of another client.
  abbrev Holds : Key → IncomingFile → Client → Client → Type 0
  Holds key f c d =
      ((q : List IncomingFile) × (lookup key d.incoming_files ≡ some (f ∷ q))) × (d.disk ≡ c.disk)

  enqueue_incoming-Holds :
      (key : Key) (path : Text) (size : ℤ) (f : IncomingFile) (c : Client)
      → lookup key c.incoming_files ≡ some (f ∷ [])
      → Holds key f c (enqueue_incoming J env key path size c)
  unfolding enqueue_incoming
  enqueue_incoming-Holds key path size f c h =
      let new : IncomingFile = record {
        destination = path;
        expected_size = size;
        is_open = false;
        written = 0;
      } in
      let e : enqueue_incoming J env key path size c
          ≡ record c { incoming_files = insert key (f ∷ new ∷ []) c.incoming_files } =
        ap (λ (o : Option (List IncomingFile)). appended J env key new (queue_of J env o) c) h in
      (
        (
          new ∷ [],
          ap (λ (d : Client). lookup key d.incoming_files) e
              ∙ ground (arith, ==_refl key, lookup-insert key key (f ∷ new ∷ []) c.incoming_files),
        ),
        ap (λ (d : Client). d.disk) e,
      )

  IsAnswered-Holds :
      (key : Key) (f : IncomingFile) (c d e : Client)
      → Holds key f c d
      → IsAnswered J env d e
      → Holds key f c e
  IsAnswered-Holds key f c d e ((q, h), k) a =
      ((q, ap (lookup key) a.incoming_files ∙ h), a.disk ∙ k)

  receive_at-Holds :
      (doc : J.Value) (offer : Offer) (path : Text) (f : IncomingFile) (c : Client)
      → lookup (offer.peer, offer.room) c.incoming_files ≡ some (f ∷ [])
      → Holds (offer.peer, offer.room) f c (receive_at J env doc offer path c)
  unfolding receive_at
  receive_at-Holds doc offer path f c h =
      let key : Key = (offer.peer, offer.room) in
      elim (Bool-cases (env.prepares path)) [
        | inl p ↦ elim (Bool-cases (same_crc J env offer.crc (env.crc path))) [
          | inl n ↦
              rw (p, n)
                (IsAnswered-Holds key f c c (send_file_reject J env doc c) (([], h), refl)
                  (send_file_reject-IsAnswered J env doc c))
          | inr n ↦
              let next = enqueue_incoming J env key path offer.size c in
              rw (p, n)
                (IsAnswered-Holds key f c next (send_file_accept J env doc next)
                  (enqueue_incoming-Holds key path offer.size f c h)
                  (send_file_accept-IsAnswered J env doc next))
        ]
        | inr p ↦ rw p (([], h), refl)
      ]

  write-front :
      (key : Key) (path : Text) (m n : ℕ) (q : List IncomingFile) (bytes : Text) (c : Client)
      → env.writable path ≡ true
      → n + length bytes < m
      → lookup key c.incoming_files ≡ some (front path m n ∷ q)
      → contents env path (on_incoming_chunk env key bytes c).disk
        ≡ contents env path c.disk ++ bytes
  unfolding on_incoming_chunk write_front
  write-front key path m n q bytes c w l h =
      ap (λ (o : Option (List IncomingFile)). contents env path (on_queue env o key bytes c).disk) h
      ∙ rw (progress-unfinished env key path m w n (n + length bytes) l, w)
          (ground (
            arith,
            ==_refl path,
            lookup-insert path path (contents env path c.disk ++ bytes) c.disk,
          ))

  -- A transfer that a lost connection cuts off keeps its file open: after the close, the opening of
  -- a new connection and another offer of the same sender and room, whatever file it offers, the
  -- next chunk is still written to the file that was cut off, if that file lacks more than the chunk.
  pub interrupted-misplaces :
      (doc : J.Value) (offer : Offer) (new path : Text) (m n : ℕ) (bytes : Text) (c : Client)
      → lookup (offer.peer, offer.room) c.incoming_files ≡ some (front path m n ∷ [])
      → env.writable path ≡ true
      → n + length bytes < m
      → contents env path
          (on_incoming_chunk env
            (offer.peer, offer.room)
            bytes
            (receive_at J env doc offer new (on_message_open (on_message_close c)))).disk
        ≡ contents env path c.disk ++ bytes
  unfolding on_message_close on_message_open
  interrupted-misplaces doc offer new path m n bytes c h w l =
      let key : Key = (offer.peer, offer.room) in
      let b = on_message_open (on_message_close c) in
      let kept : lookup key b.incoming_files ≡ some (front path m n ∷ []) = ground (arith, h) in
      let ((q, e), k) = receive_at-Holds doc offer new (front path m n) b kept in
      let same : b.disk ≡ c.disk = ground arith in
      write-front key path m n q bytes _ w l e
      ∙ ap (λ (x : Dict Text Text). contents env path x ++ bytes) (k ∙ same)
