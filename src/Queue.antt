-- ===== src/Queue.antt =====
-- src/Queue.cpp: the blocking queue that hands paths to a transfer thread, each call as the step
-- that it makes under the mutex. `GetItem` waits while the queue is empty: it has no step there.
pub mod Order
use cloud_node.Base.{length, ℕ, Option, none, some, List, [], ◌∷◌, ◌++◌}

module _ {ℓ} {T : Type ℓ} where
  -- A null item is ignored.
  unfoldable pub add_item : Option T → List T → List T
  add_item none items = items
  add_item (some item) items = items ++ item ∷ []

  -- The item and the queue behind it, or the wait.
  unfoldable pub get_item : List T → Option (T × List T)
  get_item [] = none
  get_item (item ∷ items) = some (item, items)

  unfoldable pub get_size : List T → ℕ
  get_size items = length items
