-- ===== src/FileWatcher/Coalescing.antt =====
-- What stands for a series of changes of a path.
use cloud_node.Base.{
  if◌then◌else◌, Option-cases, All, ◌==◌, ==_iff, nat_ord, Text, text_ord, pair_ord, ℕ, ◌≡◌, refl,
  ap, ◌∙◌, ◌⊎◌, inl, inr, Bool, true, false, Option, none, some, List, [], ◌∷◌, arith,
}
use cloud_node.Base.Dict.{lookup, lookup-insert}
use cloud_node.FileWatcher.{FileChange, added, modified, removed, Watcher, noted, coalesce, notify}

-- A series of notifications, at their times.
pub notify_all : List (ℕ × Text × FileChange) → Watcher → Watcher
notify_all [] w = w
notify_all ((now, path, change) ∷ ns) w = notify_all ns (notify now path change w)

-- The changes of one path, in their order.
abbrev pub changes_of : Text → List (ℕ × Text × FileChange) → List FileChange
changes_of p [] = []
changes_of p ((now, path, change) ∷ ns) =
    let rest = changes_of p ns in if p == path then change ∷ rest else rest

abbrev merge : Option FileChange → List FileChange → Option FileChange
merge o [] = o
merge none (c ∷ cs) = merge (some c) cs
merge (some d) (c ∷ cs) = merge (some (coalesce d c)) cs

lookup-notify_all :
    (p : Text) (ns : List (ℕ × Text × FileChange)) (w : Watcher)
    → lookup p (notify_all ns w).pending ≡ merge (lookup p w.pending) (changes_of p ns)
unfolding notify_all notify
lookup-notify_all p [] w = refl
lookup-notify_all p ((now, path, change) ∷ ns) w =
    lookup-notify_all p ns (notify now path change w)
    ∙ elim (Option-cases (lookup path w.pending)) [
      | inl e ↦ ground (
        arith,
        e,
        ==_iff p path,
        lookup-insert p path (noted (lookup path w.pending) change) w.pending,
      )
      | inr (d, e) ↦ ground (
        arith,
        e,
        ==_iff p path,
        lookup-insert p path (noted (lookup path w.pending) change) w.pending,
      )
    ]

-- The change of a path that is there at the end, from the last one.
abbrev pub is_removed : FileChange → Bool
is_removed removed = true
is_removed _ = false

abbrev pub last : FileChange → List FileChange → FileChange
last d [] = d
last d (c ∷ cs) = last c cs

merge-last :
    (d e : FileChange) (cs : List FileChange)
    → is_removed d ≡ is_removed e
    → (c : FileChange) × (merge (some d) cs ≡ some c) × (is_removed c ≡ is_removed (last e cs))
unfolding coalesce
merge-last d e [] h = (d, refl, h)
merge-last d e (c ∷ cs) h = merge-last (coalesce d c) c cs (ground arith)

merge_from :
    (o : Option FileChange) (c : FileChange) (cs : List FileChange)
    → (d : FileChange) × (merge o (c ∷ cs) ≡ some d) × (is_removed d ≡ is_removed (last c cs))
unfolding coalesce
merge_from none c cs = merge-last c c cs refl
merge_from (some e) c cs = merge-last (coalesce e c) c cs (ground arith)

-- However many changes come in, a path that had one is pending, as a removal if the last of its
-- changes was a removal, and as a file to send otherwise. A path that had none is as it was.
pub notify_all-pending :
    (p : Text) (ns : List (ℕ × Text × FileChange)) (w : Watcher)
    → ((changes_of p ns ≡ []) × (lookup p (notify_all ns w).pending ≡ lookup p w.pending))
      ⊎ ((c : FileChange) × (cs : List FileChange) × (d : FileChange) × (changes_of p ns ≡ c ∷ cs)
          × (lookup p (notify_all ns w).pending ≡ some d)
          × (is_removed d ≡ is_removed (last c cs)))
notify_all-pending p ns w = by_changes (changes_of p ns) refl
  where
    by_changes :
        (l : List FileChange)
        → changes_of p ns ≡ l
        → ((changes_of p ns ≡ []) × (lookup p (notify_all ns w).pending ≡ lookup p w.pending))
          ⊎ ((c : FileChange) × (cs : List FileChange) × (d : FileChange) × (changes_of p ns
                ≡ c ∷ cs)
              × (lookup p (notify_all ns w).pending ≡ some d)
              × (is_removed d ≡ is_removed (last c cs)))
    by_changes [] e = inl (e, lookup-notify_all p ns w ∙ ap (merge (lookup p w.pending)) e)
    by_changes (c ∷ cs) e =
        let (d, m, r) = merge_from (lookup p w.pending) c cs in
        inr (c, cs, d, e, lookup-notify_all p ns w ∙ ap (merge (lookup p w.pending)) e ∙ m, r)

merge_added :
    (cs : List FileChange) → All (λ c. c ≡ modified) cs → merge (some added) cs ≡ some added
unfolding coalesce
merge_added [] a = refl
merge_added (added ∷ cs) a = merge_added cs a.1
merge_added (modified ∷ cs) a = merge_added cs a.1
merge_added (removed ∷ cs) a = absurd (cc (a.0))

-- A file that is new stays new for the consumer, however often it is modified before it is reported.
pub notify_all-added :
    (p : Text) (cs : List FileChange) (ns : List (ℕ × Text × FileChange)) (w : Watcher)
    → lookup p w.pending ≡ none
    → changes_of p ns ≡ added ∷ cs
    → All (λ c. c ≡ modified) cs
    → lookup p (notify_all ns w).pending ≡ some added
notify_all-added p cs ns w n e a = lookup-notify_all p ns w ∙ rw (n, e) (merge_added cs a)
