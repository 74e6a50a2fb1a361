-- ===== src/Client/Incoming/Transfer.antt =====
-- A whole transfer: chunks that make up the offered size, and the file that they leave.
use cloud_node.Base.{
  ltb, Bool-cases, length, length-append, ◌==◌, ==_refl, nat_ord, Text, text_ord, pair_ord, ℕ, ◌+◌,
  ◌<◌, ◌≡◌, refl, sym, ap, ◌∙◌, subst, inl, inr, true, false, Option, none, some, List, [], ◌∷◌,
  ◌++◌, append-nil, append_assoc, arith,
}
use cloud_node.Base.Dict.{lookup, insert, lookup-insert, lookup-erase}
use cloud_node.Base.Set
use cloud_node.Json.{pos}
use cloud_node.Client.State.{run, Key, IncomingFile, Client, Env}
use cloud_node.Client.Incoming.{
  unfinished, complete, progress, start_next_incoming, finish_front, write_front, contents,
  on_queue, on_incoming_chunk,
}

-- Chunks of one sender and room, in their order.
pub deliver : Env → Key → List Text → Client → Client
deliver env key [] c = c
deliver env key (bytes ∷ chunks) c = deliver env key chunks (on_incoming_chunk env key bytes c)

abbrev pub concat : List Text → Text
concat [] = []
concat (bytes ∷ chunks) = bytes ++ concat chunks

-- What a transfer to a path leaves: the bytes stand behind those that were there, the path is
-- noted, the queue is gone, and the client runs.
pub record IsReceived (env : Env) (key : Key) (path bytes : Text) (c d : Client) : Type 0 where
  pub on_disk : contents env path d.disk ≡ contents env path c.disk ++ bytes
  pub noted : Set.contains (env.absolute path) d.received_paths ≡ true
  pub emptied : lookup key d.incoming_files ≡ none
  pub running : d.state ≡ run
  pub other_files : (p : Text) → p == path ≡ false → lookup p d.disk ≡ lookup p c.disk
  pub other_queues :
      (k : Key) → k == key ≡ false → lookup k d.incoming_files ≡ lookup k c.incoming_files

-- A file that is open at a place, of an offered size.
abbrev pub front : Text → ℕ → ℕ → IncomingFile
front path m n = record { destination = path; expected_size = pos m; is_open = true; written = n }

pub length-zero : (t : Text) → length t ≡ 0 → t ≡ []
length-zero [] h = refl
length-zero (b ∷ t) h = absurd (omega (arith, h))

module _ (env : Env) (key : Key) (path : Text) (m : ℕ) (writable : env.writable path ≡ true) where
  pub progress-unfinished : (n k : ℕ) → k < m → progress env (front path m n) k ≡ unfinished
  unfolding progress
  progress-unfinished n k h = ground (arith, writable)

  progress-complete : (n k : ℕ) → k ≡ m → progress env (front path m n) k ≡ complete
  unfolding progress
  progress-complete n k h = ground (arith, writable)

  abbrev appended : Text → Client → Client
  appended bytes c = record c { disk = insert path (contents env path c.disk ++ bytes) c.disk }

  write_unfinished :
      (n : ℕ) (bytes : Text) (c : Client)
      → n + length bytes < m
      → write_front env key (front path m n) [] bytes c ≡ record (appended bytes c) {
        incoming_files = insert key (front path m (n + length bytes) ∷ []) c.incoming_files;
      }
  unfolding write_front
  write_unfinished n bytes c h = rw (progress-unfinished n (n + length bytes) h, writable) refl

  write_complete :
      (n : ℕ) (bytes : Text) (c : Client)
      → n + length bytes ≡ m
      → write_front env key (front path m n) [] bytes c
        ≡ record (finish_front env key (front path m n) [] (appended bytes c)) { state = run }
  unfolding write_front
  write_complete n bytes c h = rw (progress-complete n (n + length bytes) h, writable) refl

  on_incoming_chunk-write_front :
      (n : ℕ) (bytes : Text) (c : Client)
      → lookup key c.incoming_files ≡ some (front path m n ∷ [])
      → on_incoming_chunk env key bytes c ≡ write_front env key (front path m n) [] bytes c
  unfolding on_incoming_chunk
  on_incoming_chunk-write_front n bytes c h =
      ap (λ (o : Option (List IncomingFile)). on_queue env o key bytes c) h

  finish-IsReceived :
      (n : ℕ) (bytes : Text) (c : Client)
      → IsReceived env key path bytes c
          (record (finish_front env key (front path m n) [] (appended bytes c)) { state = run })
  unfolding finish_front start_next_incoming
  finish-IsReceived n bytes c = record {
    on_disk =
        ground
          (arith, ==_refl path, lookup-insert path path (contents env path c.disk ++ bytes) c.disk);
    noted = ground (
      arith,
      ==_refl (env.absolute path),
      Set.contains-insert (env.absolute path) (env.absolute path) c.received_paths,
    );
    emptied = ground (arith, ==_refl key, lookup-erase key key c.incoming_files);
    running = refl;
    other_files =
        λ p h. ground (arith, h, lookup-insert p path (contents env path c.disk ++ bytes) c.disk);
    other_queues = λ k h. ground (arith, h, lookup-erase k key c.incoming_files);
  }

  deliver-absent :
      (chunks : List Text) (c : Client)
      → lookup key c.incoming_files ≡ none
      → deliver env key chunks c ≡ c
  unfolding deliver on_incoming_chunk
  deliver-absent [] c h = refl
  deliver-absent (bytes ∷ chunks) c h =
      ap (λ (o : Option (List IncomingFile)). deliver env key chunks (on_queue env o key bytes c)) h
      ∙ deliver-absent chunks c h

  IsReceived-after :
      (bytes rest : Text) (q : List IncomingFile) (c d : Client)
      → IsReceived env key path rest
          (record (appended bytes c) { incoming_files = insert key q c.incoming_files })
          d
      → IsReceived env key path (bytes ++ rest) c d
  IsReceived-after bytes rest q c d r = record {
    on_disk =
        r.on_disk
        ∙ ground (
          arith,
          ==_refl path,
          lookup-insert path path (contents env path c.disk ++ bytes) c.disk,
          append_assoc (contents env path c.disk) bytes rest,
        );
    noted = r.noted;
    emptied = r.emptied;
    running = r.running;
    other_files = λ p h.
        r.other_files p h
        ∙ ground (arith, h, lookup-insert p path (contents env path c.disk ++ bytes) c.disk);
    other_queues =
        λ k h. r.other_queues k h ∙ ground (arith, h, lookup-insert k key q c.incoming_files);
  }

  -- A file that can be written, is open at a place before its offered size and is alone in its queue:
  -- after chunks that together bring it to that size, its bytes are those that were there and then
  -- those of the chunks, its path is noted as received, the queue is gone, the client runs, whatever
  -- its state was, and the other files and queues are as before.
  pub deliver-IsReceived :
      (chunks : List Text) (n : ℕ) (c : Client)
      → lookup key c.incoming_files ≡ some (front path m n ∷ [])
      → n < m
      → n + length (concat chunks) ≡ m
      → IsReceived env key path (concat chunks) c (deliver env key chunks c)
  unfolding deliver
  deliver-IsReceived [] n c h l e = absurd (omega (arith, l, e))
  deliver-IsReceived (bytes ∷ chunks) n c h l e =
      let total : n + (length bytes + length (concat chunks)) ≡ m =
        ap (λ (k : ℕ). n + k) (sym (length-append bytes (concat chunks))) ∙ e in
      elim (Bool-cases (ltb (n + length bytes) m)) [
        | inl p ↦
            let less : n + length bytes < m = ground arith in
            let next = record (appended bytes c) {
              incoming_files = insert key (front path m (n + length bytes) ∷ []) c.incoming_files;
            } in
            let ih =
              deliver-IsReceived chunks (n + length bytes) next
                (ground (
                  arith,
                  ==_refl key,
                  lookup-insert key key (front path m (n + length bytes) ∷ []) c.incoming_files,
                ))
                less (ground arith) in
            let same : on_incoming_chunk env key bytes c ≡ next =
              on_incoming_chunk-write_front n bytes c h ∙ write_unfinished n bytes c less in
            subst
              (λ (d : Client).
                IsReceived env key path (bytes ++ concat chunks) c (deliver env key chunks d))
              (sym same) (IsReceived-after bytes (concat chunks) _ c _ ih)
        | inr p ↦
            let full : n + length bytes ≡ m = ground arith in
            let none_left : length (concat chunks) ≡ 0 = ground arith in
            let last = record (finish_front env key (front path m n) [] (appended bytes c)) {
              state = run;
            } in
            let same : on_incoming_chunk env key bytes c ≡ last =
              on_incoming_chunk-write_front n bytes c h ∙ write_complete n bytes c full in
            let r = finish-IsReceived n bytes c in
            let end : deliver env key chunks (on_incoming_chunk env key bytes c) ≡ last =
              ap (deliver env key chunks) same ∙ deliver-absent chunks last r.emptied in
            let whole : bytes ≡ bytes ++ concat chunks =
              sym (append-nil bytes)
              ∙ ap (λ (t : Text). bytes ++ t) (sym (length-zero (concat chunks) none_left)) in
            subst
              (λ (t : Text).
                IsReceived env key path t c
                  (deliver env key chunks (on_incoming_chunk env key bytes c)))
              whole (subst (λ (d : Client). IsReceived env key path bytes c d) (sym end) r)
      ]
