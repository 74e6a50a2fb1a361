-- ===== src/StopToken/Runs.antt =====
-- Tokens that threads have used, with the numbers of starts and of stops.
use cloud_node.Base.{nat_ord, text_ord, pair_ord, ℕ, suc, ◌≡◌, Bool, none, some}
use cloud_node.Json.{done}
use cloud_node.StopToken.{
  Platform, StopToken, create_stop_token, start, request_stop, stop_requested,
}

pub data Used (platform : Platform) : StopToken → ℕ → ℕ → Type 0 where
  created : Used platform create_stop_token 0 0
  started :
      (thread starts stops : ℕ) (s t : StopToken)
      → start thread s ≡ some t
      → Used platform s starts stops
      → Used platform t (suc starts) stops
  stopped :
      (thread starts stops : ℕ) (s t : StopToken)
      → request_stop thread s ≡ done t
      → Used platform s starts stops
      → Used platform t starts (suc stops)
  asked :
      (thread starts stops : ℕ) (s t : StopToken) (answer : Bool)
      → stop_requested platform thread s ≡ done (t, answer)
      → Used platform s starts stops
      → Used platform t starts stops

abbrev held : StopToken → ℕ
held none = 0
held (some owner) = 1
