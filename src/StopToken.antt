-- ===== src/StopToken.antt =====
-- src/StopToken.cpp: a stop token, as the thread that holds its mutex.
pub mod Runs
use cloud_node.Base.{if◌then◌else◌, ◌==◌, nat_ord, ℕ, Bool, true, false, Option, none, some}
use cloud_node.Json.{Run, done, fault}

abbrev pub StopToken : Type 0
StopToken = Option ℕ

unfoldable pub create_stop_token : StopToken
create_stop_token = none

-- `none` while the mutex is held: the call waits.
unfoldable pub start : ℕ → StopToken → Option StopToken
start thread none = some (some thread)
start thread (some owner) = none

-- Undefined unless the calling thread holds the mutex.
unfoldable pub request_stop : ℕ → StopToken → Run StopToken
request_stop thread none = fault
request_stop thread (some owner) = if owner == thread then done none else fault

-- What `try_lock` does for the thread that holds the mutex: the C++ standard leaves it undefined, and
-- POSIX has it fail, as for any other thread.
pub data Platform : Type 0 where
  standard posix : Platform

abbrev pub relock : Platform → ℕ → Run (StopToken × Bool)
relock standard owner = fault
relock posix owner = done (some owner, false)

-- `try_lock`, and the unlock after it
unfoldable pub stop_requested : Platform → ℕ → StopToken → Run (StopToken × Bool)
unfolding request_stop
stop_requested platform thread none = elim (request_stop thread (some thread)) [
  | done token ↦ done (token, true)
  | fault ↦ fault
]
stop_requested platform thread (some owner) =
    if owner == thread then relock platform owner else done (some owner, false)
