-- ===== src/Client/Incoming/Received.antt =====
-- The paths that the client's own transfers have written.
use cloud_node.Base.{if◌then◌else◌, ◌==◌, nat_ord, Text, text_ord, pair_ord, ◌≡◌, false, arith}
use cloud_node.Base.Set
use cloud_node.Client.State.{Client, Env}
use cloud_node.Client.Incoming.{take_received_file}

module _ (env : Env) where
  -- A received path is taken once: after a call for a path, another call is answered with no for the
  -- same path in any spelling, and as before the first call for every other path.
  pub take_received_file-once :
      (p q : Text) (c : Client)
      → (take_received_file env p (take_received_file env q c).0).1
        ≡ (if env.absolute p == env.absolute q then false else (take_received_file env p c).1)
  unfolding take_received_file
  take_received_file-once p q c =
      ground (arith, Set.contains-erase (env.absolute p) (env.absolute q) c.received_paths)
