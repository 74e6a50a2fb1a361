-- ===== src/Logger.antt =====
-- include/Logger.hpp: log lines, each built by its own stream and written when the stream ends. Values
-- are the texts that `<<` makes of them.
pub mod Lines
use cloud_node.Base.{
  if◌then◌else◌, ◌==◌, nat_ord, Text, text, text_ord, pair_ord, ℕ, Bool, true, false, Option, none,
  some, ◌∷◌, ◌++◌,
}

pub data Level : Type 0 where
  info warning error success : Level

-- `m_stream`, and whether `m_out_target` is `std::cerr`.
pub record LogStream : Type 0 where
  pub stream : Text
  pub to_cerr : Bool

abbrev escape : Text → Text
escape t = b'\x1b' ∷ t

-- The coloured severity
abbrev pub severity : Level → Text
severity info = escape (text "[36m[INFO] " ++ escape (text "[0m"))
severity warning = escape (text "[33m[WARNING] " ++ escape (text "[0m"))
severity error = escape (text "[31m[ERROR] " ++ escape (text "[0m"))
severity success = escape (text "[32m[SUCCESS] " ++ escape (text "[0m"))

abbrev pub is_error : Level → Bool
is_error error = true
is_error _ = false

-- The constructor of `LogStream`, with the time as it is formatted
unfoldable pub log_stream : Level → Text → LogStream
log_stream level timestamp = record {
  stream = text "[" ++ (timestamp ++ (text "] " ++ severity level));
  to_cerr = is_error level;
}

-- `operator<<`
unfoldable pub put : Text → LogStream → LogStream
put value s = record s { stream = s.stream ++ value }

-- The streams of all threads by number, and what `std::cout` and `std::cerr` were given.
pub record Console : Type 0 where
  pub streams : ℕ → Option LogStream
  pub cout : Text
  pub cerr : Text

abbrev pub at : {A : Type 0} → ℕ → A → (ℕ → A) → ℕ → A
at i a f = λ j. if j == i then a else f j

unfoldable pub begin_at : ℕ → Level → Text → Console → Console
unfolding log_stream
begin_at i level timestamp c = record c {
  streams = at i (some (log_stream level timestamp)) c.streams;
}

unfoldable pub put_at : ℕ → Text → Console → Console
unfolding put
put_at i value c = elim (c.streams i) [
  | none ↦ c
  | some s ↦ record c { streams = at i (some (put value s)) c.streams }
]

abbrev pub written : LogStream → Console → Console
written s c =
    let line = s.stream ++ text "\n" in
    if s.to_cerr then record c { cerr = c.cerr ++ line } else record c { cout = c.cout ++ line }

-- The destructor, which holds the mutex while it writes the line.
unfoldable pub end_at : ℕ → Console → Console
end_at i c = elim (c.streams i) [
  | none ↦ c
  | some s ↦ written s (record c { streams = at i none c.streams })
]
