-- ===== src/Logger/Lines.antt =====
-- What stands on the console: whole lines.
use cloud_node.Base.{
  if◌then◌else◌, Bool-cases, nat_ord, Text, text, text_ord, pair_ord, ℕ, ◌≡◌, refl, sym, ap, ◌∙◌,
  subst, inl, inr, Bool, true, false, Option, none, some, List, [], ◌∷◌, ◌++◌, append-nil,
  append_assoc, arith,
}
use cloud_node.Logger.{
  Level, is_error, severity, LogStream, log_stream, put, Console, at, begin_at, put_at, written,
  end_at,
}

-- A line as its thread means it.
pub record Line : Type 0 where
  pub level : Level
  pub timestamp : Text
  pub value : Text

abbrev pub begun : Line → Text
begun l = (text "[" ++ (l.timestamp ++ (text "] " ++ severity l.level))) ++ l.value

abbrev pub stream_of : Line → LogStream
stream_of l = record { stream = begun l; to_cerr = is_error l.level }

abbrev pub as_stream : Option Line → Option LogStream
as_stream none = none
as_stream (some l) = some (stream_of l)

-- The lines of one target, one after another.
abbrev pub printed : Bool → List Line → Text
printed err [] = []
printed err (l ∷ ls) =
    (if is_error l.level
      then (if err then begun l ++ text "\n" else [])
      else (if err then [] else begun l ++ text "\n"))
    ++ printed err ls

-- The console, the lines that are being built, by stream, and those that have ended, oldest first.
pub data Logs : Console → (ℕ → Option Line) → List Line → Type 0 where
  fresh : Logs (record { streams = λ _. none; cout = []; cerr = [] }) (λ _. none) []
  begins :
      (i : ℕ) (level : Level) (timestamp : Text) {c : Console} {open_lines : ℕ → Option Line}
      {ls : List Line}
      → Logs c open_lines ls
      → Logs
          (begin_at i level timestamp c)
          (at i (some (record { level = level; timestamp = timestamp; value = [] })) open_lines)
          ls
  puts :
      (i : ℕ) (value : Text) (l : Line) {c : Console} {open_lines : ℕ → Option Line}
      {ls : List Line}
      → Logs c open_lines ls
      → open_lines i ≡ some l
      → Logs (put_at i value c) (at i (some (record l { value = l.value ++ value })) open_lines) ls
  ends :
      (i : ℕ) (l : Line) {c : Console} {open_lines : ℕ → Option Line} {ls : List Line}
      → Logs c open_lines ls
      → open_lines i ≡ some l
      → Logs (end_at i c) (at i none open_lines) (ls ++ l ∷ [])

pub record IsPrinted (c : Console) (open_lines : ℕ → Option Line) (ls : List Line) : Type 0 where
  pub streams : (i : ℕ) → c.streams i ≡ as_stream (open_lines i)
  pub cout : c.cout ≡ printed false ls
  pub cerr : c.cerr ≡ printed true ls

printed-snoc :
    (err : Bool) (ls : List Line) (l : Line)
    → printed err (ls ++ l ∷ []) ≡ printed err ls ++ printed err (l ∷ [])
printed-snoc err [] l = refl
printed-snoc err (k ∷ ls) l = simp (printed-snoc err ls l, append_assoc)

put_at-some :
    (i : ℕ) (value : Text) (c : Console) {s : LogStream}
    → c.streams i ≡ some s
    → put_at i value c ≡ record c { streams = at i (some (put value s)) c.streams }
unfolding put_at
put_at-some i value c h = ground (arith, h)

end_at-some :
    (i : ℕ) (c : Console) {s : LogStream}
    → c.streams i ≡ some s
    → end_at i c ≡ written s (record c { streams = at i none c.streams })
unfolding end_at
end_at-some i c h = ground (arith, h)

written-IsPrinted :
    (l : Line) (c : Console) (ls : List Line) {open_lines : ℕ → Option Line}
    → ((i : ℕ) → c.streams i ≡ as_stream (open_lines i))
    → c.cout ≡ printed false ls
    → c.cerr ≡ printed true ls
    → IsPrinted (written (stream_of l) c) open_lines (ls ++ l ∷ [])
written-IsPrinted l c ls h o e = elim (Bool-cases (is_error l.level)) [
  | inl b ↦ record {
    streams = λ i. rw b (h i);
    cout = rw (b) (o ∙ sym (rw (printed-snoc false ls l, b) (append-nil (printed false ls))));
    cerr = rw (b) (
        rw (printed-snoc true ls l, b)
          (ap (λ (t : Text). t ++ (begun l ++ text "\n")) e
            ∙ ap (λ (t : Text). printed true ls ++ t) (sym (append-nil (begun l ++ text "\n")))));
  }
  | inr b ↦ record {
    streams = λ i. rw b (h i);
    cout = rw (b) (
        rw (printed-snoc false ls l, b)
          (ap (λ (t : Text). t ++ (begun l ++ text "\n")) o
            ∙ ap (λ (t : Text). printed false ls ++ t) (sym (append-nil (begun l ++ text "\n")))));
    cerr = rw (b) (e ∙ sym (rw (printed-snoc true ls l, b) (append-nil (printed true ls))));
  }
]

-- However threads interleave: each target has whole lines, in the order in which they ended, those of
-- errors on `cerr` and all others on `cout`, and each stream has what its own thread has put in it.
pub Logs-IsPrinted :
    {c : Console} {open_lines : ℕ → Option Line} {ls : List Line}
    → Logs c open_lines ls
    → IsPrinted c open_lines ls
unfolding begin_at log_stream put
Logs-IsPrinted fresh = record { streams = λ i. refl; cout = refl; cerr = refl }
Logs-IsPrinted (begins i level ts r) =
    let g = Logs-IsPrinted r in
    record {
      streams = λ j.
          ground
            (arith, g.streams j, append-nil (text "[" ++ (ts ++ (text "] " ++ severity level))));
      cout = g.cout;
      cerr = g.cerr;
    }
Logs-IsPrinted (puts i v l {c} {open_lines} {ls} r e) =
    let g = Logs-IsPrinted r in
    subst (λ d. IsPrinted d (at i (some (record l { value = l.value ++ v })) open_lines) ls)
      (sym (put_at-some i v c (g.streams i ∙ ap as_stream e)))
      (record {
        streams = λ j. ground (
          arith,
          g.streams j,
          append_assoc (text "[" ++ (l.timestamp ++ (text "] " ++ severity l.level))) l.value v,
        );
        cout = g.cout;
        cerr = g.cerr;
      })
Logs-IsPrinted (ends i l {c} {open_lines} {ls} r e) =
    let g = Logs-IsPrinted r in
    subst (λ d. IsPrinted d (at i none open_lines) (ls ++ l ∷ []))
      (sym (end_at-some i c (g.streams i ∙ ap as_stream e)))
      (written-IsPrinted l (record c { streams = at i none c.streams }) ls
        (λ j. ground (arith, g.streams j)) g.cout g.cerr)
