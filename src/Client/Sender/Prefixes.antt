-- ===== src/Client/Sender/Prefixes.antt =====
-- What the transfer thread has sent: files one after another, each completed only when it is whole.
use cloud_node.Base.{
  ltb, if◌then◌else◌, length, take, drop, ◌==◌, nat_ord, Text, text_ord, pair_ord, ℕ, ◌≡◌, refl,
  sym, ap, ◌∙◌, subst, Bool, true, false, not, ◌&&◌, Option, none, some, List, [], ◌∷◌, ◌++◌,
  append-nil, append_assoc, arith,
}
use cloud_node.Client.Incoming.Transfer.{concat}
use cloud_node.Client.Specs.{is_empty}
use cloud_node.Client.Channel.Reading.{take-append-drop}
use cloud_node.Client.Sender.{
  Point, top, getting, ended, reading, checking, waiting, retrying, Sender, at_point, opened, taken,
  from_queue, finished, given, capacity, after_wait, step_at, step, closes, on_closed, buffers,
  queues,
}

pub concat-snoc :
    (chunks : List Text) (chunk : Text) → concat (chunks ++ (chunk ∷ [])) ≡ concat chunks ++ chunk
concat-snoc [] chunk = append-nil chunk
concat-snoc (c ∷ chunks) chunk =
    ap (λ (t : Text). c ++ t) (concat-snoc chunks chunk)
    ∙ sym (append_assoc c (concat chunks) chunk)

module _ (content : Text → Option Text) (size : ℕ) where
  abbrev pub bytes_of : Option Text → Text
  bytes_of none = []
  bytes_of (some bytes) = bytes

  -- The contents of files, one after another.
  abbrev pub contents : List Text → Text
  contents [] = []
  contents (path ∷ paths) = bytes_of (content path) ++ contents paths

  contents-snoc :
      (paths : List Text) (path : Text)
      → contents (paths ++ (path ∷ [])) ≡ contents paths ++ bytes_of (content path)
  contents-snoc [] path = append-nil (bytes_of (content path))
  contents-snoc (p ∷ paths) path =
      ap (λ (t : Text). bytes_of (content p) ++ t) (contents-snoc paths path)
      ∙ sym (append_assoc (bytes_of (content p)) (contents paths) (bytes_of (content path)))

  -- What of the file at hand is sent, where the thread is.
  abbrev pub Fits : Point → Bool → Text → Type 0
  Fits top b t = b ≡ true → t ≡ []
  Fits getting b t = b ≡ true → t ≡ []
  Fits (reading path rest) b t = content path ≡ some (t ++ rest)
  Fits (checking path chunk rest) b t = content path ≡ some (t ++ (chunk ++ rest))
  Fits (waiting path chunk rest) b t = content path ≡ some (t ++ (chunk ++ rest))
  Fits (retrying path rest) b t = content path ≡ some (t ++ rest)
  Fits ended b t = Unit {0}

  abbrev pub IsInOrder : Sender → Type 0
  IsInOrder s = (t : Text) × (concat s.sent ≡ contents s.completed ++ t) × Fits s.point s.is_open t

  abbrev IsInOrderNext : Option Sender → Type 0
  IsInOrderNext none = Unit {0}
  IsInOrderNext (some s) = IsInOrder s

  -- What the thread, the channel and the callers of the queue lead to, in any order.
  pub data Reached : Sender → Type 0 where
    fresh : (s : Sender) → s.sent ≡ [] → s.completed ≡ [] → s.point ≡ top → Reached s
    steps :
        (takes : Bool) (s : Sender) {t : Sender}
        → Reached s
        → step content size takes s ≡ some t
        → Reached t
    loses : (s : Sender) → Reached s → Reached (closes s)
    is_told : (s : Sender) → Reached s → Reached (on_closed s)
    drains : (n : ℕ) (s : Sender) → Reached s → Reached (buffers n s)
    gains : (path : Text) (s : Sender) → Reached s → Reached (queues path s)

  closes-Fits : (p : Point) (b : Bool) (t : Text) → Fits p b t → Fits p false t
  closes-Fits top b t h = λ e. cc
  closes-Fits getting b t h = λ e. cc
  closes-Fits (reading path rest) b t h = h
  closes-Fits (checking path chunk rest) b t h = h
  closes-Fits (waiting path chunk rest) b t h = h
  closes-Fits (retrying path rest) b t h = h
  closes-Fits ended b t h = tt

  opened-IsInOrder :
      (path : Text) (o : Option Text) (s : Sender)
      → content path ≡ o
      → concat s.sent ≡ contents s.completed
      → IsInOrder (opened content size path o s)
  opened-IsInOrder path none s e h = ([], h ∙ sym (append-nil (contents s.completed)), λ _. refl)
  opened-IsInOrder path (some bytes) s e h = ([], h ∙ sym (append-nil (contents s.completed)), e)

  taken-IsInOrder :
      (path : Text) (s : Sender)
      → (t : Text) × (concat s.sent ≡ contents s.completed ++ t) × (s.is_open ≡ true → t ≡ [])
      → IsInOrder (taken content size path s)
  taken-IsInOrder path s (t, e, f) = by_tests s.is_open (is_empty path) refl
    where
      by_tests :
          (b i : Bool)
          → s.is_open ≡ b
          → IsInOrder (
              if not b
              then at_point content size ended s
              else if i
              then at_point content size top s
              else opened content size path (content path) s)
      by_tests false i h = (t, e, tt)
      by_tests true true h = (t, e, f)
      by_tests true false h = opened-IsInOrder path (content path) s refl (
          e
          ∙ (ap (λ (r : Text). contents s.completed ++ r) (f h)
              ∙ append-nil (contents s.completed)))

  from_queue-IsInOrderNext :
      (paths : List Text) (s : Sender)
      → (t : Text) × (concat s.sent ≡ contents s.completed ++ t) × (s.is_open ≡ true → t ≡ [])
      → IsInOrderNext (from_queue content size paths s)
  from_queue-IsInOrderNext [] s h = tt
  from_queue-IsInOrderNext (path ∷ paths) s h = taken-IsInOrder path (record s { queue = paths }) h

  finished-IsInOrder :
      (path rest t : Text) (s : Sender)
      → rest ≡ []
      → concat s.sent ≡ contents s.completed ++ t
      → content path ≡ some (t ++ rest)
      → IsInOrder (finished content size path s)
  finished-IsInOrder path rest t s r e f = by_open s.is_open refl
    where
      whole : bytes_of (content path) ≡ t
      whole = ap bytes_of f ∙ (ap (λ (u : Text). t ++ u) r ∙ append-nil t)

      by_open :
          (b : Bool)
          → s.is_open ≡ b
          → (u : Text) × (concat s.sent
              ≡ contents (if b then s.completed ++ (path ∷ []) else s.completed) ++ u)
            × (s.is_open ≡ true → u ≡ [])
      by_open true h = (
        [],
        e
            ∙ (ap (λ (u : Text). contents s.completed ++ u) (sym whole)
                ∙ (sym (contents-snoc s.completed path)
                    ∙ sym (append-nil (contents (s.completed ++ (path ∷ [])))))),
        λ _. refl,
      )
      by_open false h = (t, e, λ k. cc)

  given-IsInOrder :
      (takes : Bool) (path chunk rest t : Text) (s : Sender)
      → concat s.sent ≡ contents s.completed ++ t
      → content path ≡ some (t ++ (chunk ++ rest))
      → IsInOrder (given content size takes path chunk rest s)
  given-IsInOrder takes path chunk rest t s e f = (
    t ++ chunk,
    concat-snoc s.sent chunk
        ∙ (ap (λ (u : Text). u ++ chunk) e ∙ append_assoc (contents s.completed) t chunk),
    by_taken takes,
  )
    where
      by_taken :
          (b : Bool)
          → Fits (if b then reading path rest else retrying path rest) s.is_open (t ++ chunk)
      by_taken true = f ∙ ap some (sym (append_assoc t chunk rest))
      by_taken false = f ∙ ap some (sym (append_assoc t chunk rest))

  if-IsInOrderNext :
      (b : Bool) (x y : Sender)
      → (b ≡ true → IsInOrder x)
      → (b ≡ false → IsInOrder y)
      → IsInOrderNext (if b then some x else some y)
  if-IsInOrderNext true x y h g = h refl
  if-IsInOrderNext false x y h g = g refl

  after_wait-IsInOrderNext :
      (o : Option Bool) (p : Point) (t : Text) (s : Sender)
      → concat s.sent ≡ contents s.completed ++ t
      → Fits p s.is_open t
      → IsInOrderNext (after_wait content size o p s)
  after_wait-IsInOrderNext none p t s e f = tt
  after_wait-IsInOrderNext (some true) p t s e f = (t, e, f)
  after_wait-IsInOrderNext (some false) p t s e f = (t, e, tt)

  nothing_left : (rest : Text) → (ltb (length rest) size && length rest == 0) ≡ true → rest ≡ []
  nothing_left [] h = refl
  nothing_left (b ∷ rest) h = absurd (ground arith)

  step_at-IsInOrderNext :
      (p : Point) (takes : Bool) (t : Text) (s : Sender)
      → concat s.sent ≡ contents s.completed ++ t
      → Fits p s.is_open t
      → IsInOrderNext (step_at content size p takes s)
  step_at-IsInOrderNext top takes t s e f = by_open s.is_open f
    where
      by_open :
          (b : Bool)
          → (s.is_open ≡ true → t ≡ [])
          → IsInOrder (at_point content size (if b then getting else ended) s)
      by_open true g = (t, e, g)
      by_open false g = (t, e, tt)
  step_at-IsInOrderNext getting takes t s e f = from_queue-IsInOrderNext s.queue s (t, e, f)
  step_at-IsInOrderNext (reading path rest) takes t s e f =
      if-IsInOrderNext (ltb (length rest) size && length rest == 0) (finished content size path s)
        (at_point content size (checking path (take size rest) (drop size rest)) s)
        (λ h. finished-IsInOrder path rest t s (nothing_left rest h) e f)
        (λ _. (t, e, f ∙ ap (λ (u : Text). some (t ++ u)) (sym (take-append-drop size rest))))
  step_at-IsInOrderNext (checking path chunk rest) takes t s e f =
      if-IsInOrderNext (ltb size s.buffered) (at_point content size (waiting path chunk rest) s)
        (given content size takes path chunk rest s) (λ _. (t, e, f))
        (λ _. given-IsInOrder takes path chunk rest t s e f)
  step_at-IsInOrderNext (waiting path chunk rest) takes t s e f =
      after_wait-IsInOrderNext (capacity content size s) (checking path chunk rest) t s e f
  step_at-IsInOrderNext (retrying path rest) takes t s e f =
      after_wait-IsInOrderNext (capacity content size s) (reading path rest) t s e f
  step_at-IsInOrderNext ended takes t s e f = tt

  -- Whatever the channel does and whenever it closes: the chunks that were sent are the contents of the
  -- completed files, one after another, and then a part of the file at hand, of which what is not sent
  -- yet is still to be read or sent. So `SendFileComplete` is called for a file only when all of it was
  -- given to the channel.
  pub Reached-IsInOrder : {s : Sender} → Reached s → IsInOrder s
  unfolding step closes on_closed buffers queues
  Reached-IsInOrder (fresh s e c p) = (
    [],
    ap concat e ∙ sym (ap (λ (l : List Text). contents l ++ []) c),
    subst (λ q. Fits q s.is_open []) (sym p) (λ _. refl),
  )
  Reached-IsInOrder (steps takes s r e) =
      let (t, k, f) = Reached-IsInOrder r in
      subst IsInOrderNext e (step_at-IsInOrderNext s.point takes t s k f)
  Reached-IsInOrder (loses s r) =
      let (t, k, f) = Reached-IsInOrder r in (t, k, closes-Fits s.point s.is_open t f)
  Reached-IsInOrder (is_told s r) = Reached-IsInOrder r
  Reached-IsInOrder (drains n s r) = Reached-IsInOrder r
  Reached-IsInOrder (gains path s r) = Reached-IsInOrder r
