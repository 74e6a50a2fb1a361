-- ===== src/Client/Sender/Buffered.antt =====
-- How much the transfer thread lets a channel buffer, and how long its chunks are.
use cloud_node.Base.{
  ltb, if◌then◌else◌, length, length-append, take, drop, All, ◌==◌, nat_ord, Text, text_ord,
  pair_ord, ℕ, zero, suc, ◌+◌, ◌≤◌, ◌≡◌, refl, sym, ap, subst, ◌⊎◌, inl, inr, Bool, true, false,
  not, ◌&&◌, Option, none, some, List, [], ◌∷◌, ◌++◌, arith,
}
use cloud_node.Client.Incoming.Transfer.{concat}
use cloud_node.Client.Specs.{is_empty}
use cloud_node.Client.Sender.{
  Point, top, getting, ended, reading, checking, waiting, retrying, Sender, at_point, opened, taken,
  from_queue, finished, given, capacity, after_wait, step_at, step, closes, on_closed, buffers,
  queues,
}
use cloud_node.Client.Sender.Prefixes.{concat-snoc}

length-take-le : (n : ℕ) (t : Text) → length (take n t) ≤ n
length-take-le zero t = omega arith
length-take-le (suc n) [] = omega arith
length-take-le (suc n) (b ∷ t) = omega (arith, length-take-le n t)

-- How many bytes the channel was given so far.
abbrev pub total : Sender → ℕ
total s = length (concat s.sent)

module _ (content : Text → Option Text) (size : ℕ) where
  -- As `Prefixes.Reached`, for a channel that has buffered, after a step, at most what it had and what
  -- it was given, and that otherwise only sends from its buffer.
  pub data Filled : Sender → Type 0 where
    fresh : (s : Sender) → s.sent ≡ [] → s.buffered ≡ 0 → s.point ≡ top → Filled s
    steps :
        (takes : Bool) (n : ℕ) (s : Sender) {t : Sender}
        → Filled s
        → step content size takes s ≡ some t
        → n + total s ≤ s.buffered + total t
        → Filled (buffers n t)
    loses : (s : Sender) → Filled s → Filled (closes s)
    is_told : (s : Sender) → Filled s → Filled (on_closed s)
    drains : (n : ℕ) (s : Sender) → Filled s → n ≤ s.buffered → Filled (buffers n s)
    gains : (path : Text) (s : Sender) → Filled s → Filled (queues path s)

  -- The chunk that was read fits.
  abbrev Held : Point → Type 0
  Held (checking path chunk rest) = length chunk ≤ size
  Held (waiting path chunk rest) = length chunk ≤ size
  Held _ = Unit {0}

  abbrev Chunks : List Text → Type 0
  Chunks = All (λ chunk. length chunk ≤ size)

  -- A step sends one chunk, where the channel has at most the size buffered, or none.
  pub record Grows (s t : Sender) : Type 0 where
    pub held : Held t.point
    pub chunks : Chunks t.sent
    pub within : (total t ≡ total s) ⊎ ((s.buffered ≤ size) × (total t ≤ total s + size))

  abbrev GrowsNext : Sender → Option Sender → Type 0
  GrowsNext s none = Unit {0}
  GrowsNext s (some t) = Grows s t

  Chunks-snoc : (cs : List Text) (c : Text) → Chunks cs → length c ≤ size → Chunks (cs ++ (c ∷ []))
  Chunks-snoc [] c h l = (l, tt)
  Chunks-snoc (d ∷ cs) c h l = (h.0, Chunks-snoc cs c h.1 l)

  given-Grows :
      (takes : Bool) (path chunk rest : Text) (s : Sender)
      → Chunks s.sent
      → length chunk ≤ size
      → s.buffered ≤ size
      → Grows s (given content size takes path chunk rest s)
  given-Grows true path chunk rest s h l b = record {
    held = tt;
    chunks = Chunks-snoc s.sent chunk h l;
    within = inr (
      b,
      omega (arith, ap length (concat-snoc s.sent chunk), length-append (concat s.sent) chunk),
    );
  }
  given-Grows false path chunk rest s h l b = record {
    held = tt;
    chunks = Chunks-snoc s.sent chunk h l;
    within = inr (
      b,
      omega (arith, ap length (concat-snoc s.sent chunk), length-append (concat s.sent) chunk),
    );
  }

  -- A step that sends nothing.
  moved-Grows :
      (p : Point) (q c : List Text) (s : Sender)
      → Held p
      → Chunks s.sent
      → Grows s (record s { point = p; queue = q; completed = c })
  moved-Grows p q c s h k = record { held = h; chunks = k; within = inl refl }

  opened-Grows :
      (path : Text) (o : Option Text) (q : List Text) (s : Sender)
      → Chunks s.sent
      → Grows s (opened content size path o (record s { queue = q }))
  opened-Grows path none q s k = moved-Grows top q s.completed s tt k
  opened-Grows path (some bytes) q s k = moved-Grows (reading path bytes) q s.completed s tt k

  taken-Grows :
      (path : Text) (q : List Text) (s : Sender)
      → Chunks s.sent
      → Grows s (taken content size path (record s { queue = q }))
  taken-Grows path q s k = by_tests s.is_open (is_empty path)
    where
      by_tests :
          (b i : Bool)
          → Grows s (
              if not b
              then at_point content size ended (record s { queue = q })
              else if i
              then at_point content size top (record s { queue = q })
              else opened content size path (content path) (record s { queue = q }))
      by_tests false i = moved-Grows ended q s.completed s tt k
      by_tests true true = moved-Grows top q s.completed s tt k
      by_tests true false = opened-Grows path (content path) q s k

  from_queue-Grows :
      (paths : List Text) (s : Sender)
      → Chunks s.sent
      → GrowsNext s (from_queue content size paths s)
  from_queue-Grows [] s k = tt
  from_queue-Grows (path ∷ paths) s k = taken-Grows path paths s k

  after_wait-Grows :
      (o : Option Bool) (p : Point) (s : Sender)
      → Held p
      → Chunks s.sent
      → GrowsNext s (after_wait content size o p s)
  after_wait-Grows none p s h k = tt
  after_wait-Grows (some true) p s h k = moved-Grows p s.queue s.completed s h k
  after_wait-Grows (some false) p s h k = moved-Grows ended s.queue s.completed s tt k

  if-Grows :
      (b : Bool) (s x y : Sender)
      → Grows s x
      → (b ≡ false → Grows s y)
      → GrowsNext s (if b then some x else some y)
  if-Grows true s x y h g = h
  if-Grows false s x y h g = g refl

  step_at-Grows :
      (p : Point) (takes : Bool) (s : Sender)
      → Held p
      → Chunks s.sent
      → GrowsNext s (step_at content size p takes s)
  step_at-Grows top takes s h k = by_open s.is_open
    where
      by_open : (b : Bool) → Grows s (at_point content size (if b then getting else ended) s)
      by_open true = moved-Grows getting s.queue s.completed s tt k
      by_open false = moved-Grows ended s.queue s.completed s tt k
  step_at-Grows getting takes s h k = from_queue-Grows s.queue s k
  step_at-Grows (reading path rest) takes s h k =
      if-Grows (ltb (length rest) size && length rest == 0) s (finished content size path s) _
        (moved-Grows top s.queue _ s tt k)
        (λ _.
          moved-Grows (checking path (take size rest) (drop size rest)) s.queue s.completed s
            (length-take-le size rest) k)
  step_at-Grows (checking path chunk rest) takes s h k =
      if-Grows (ltb size s.buffered) s _ _
        (moved-Grows (waiting path chunk rest) s.queue s.completed s h k)
        (λ e. given-Grows takes path chunk rest s k h (ground arith))
  step_at-Grows (waiting path chunk rest) takes s h k =
      after_wait-Grows (capacity content size s) (checking path chunk rest) s h k
  step_at-Grows (retrying path rest) takes s h k =
      after_wait-Grows (capacity content size s) (reading path rest) s tt k
  step_at-Grows ended takes s h k = tt

  pub record IsBounded (s : Sender) : Type 0 where
    pub amount : s.buffered ≤ size + size
    pub chunks : Chunks s.sent
    pub held : Held s.point

  -- Whatever the channel does and whoever queues files: if the channel buffers no more than it is
  -- given, it never has more than twice the size buffered, and no chunk that was read or sent is longer
  -- than the size.
  pub Filled-IsBounded : {s : Sender} → Filled s → IsBounded s
  unfolding step closes on_closed buffers queues
  Filled-IsBounded (fresh s e b p) = record {
    amount = omega (arith, b);
    chunks = subst Chunks (sym e) tt;
    held = subst Held (sym p) tt;
  }
  Filled-IsBounded (steps takes n s r e l) =
      let i = Filled-IsBounded r in
      let g = subst (GrowsNext s) e (step_at-Grows s.point takes s i.held i.chunks) in
      record {
        amount = elim g.within [
          | inl q ↦ omega (arith, i.amount, q, l)
          | inr (b, q) ↦ omega (arith, b, q, l)
        ];
        chunks = g.chunks;
        held = g.held;
      }
  Filled-IsBounded (loses s r) =
      let i = Filled-IsBounded r in record { amount = i.amount; chunks = i.chunks; held = i.held }
  Filled-IsBounded (is_told s r) =
      let i = Filled-IsBounded r in record { amount = i.amount; chunks = i.chunks; held = i.held }
  Filled-IsBounded (drains n s r l) =
      let i = Filled-IsBounded r in
      record { amount = omega (arith, i.amount); chunks = i.chunks; held = i.held }
  Filled-IsBounded (gains path s r) =
      let i = Filled-IsBounded r in record { amount = i.amount; chunks = i.chunks; held = i.held }
