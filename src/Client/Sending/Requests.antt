-- ===== src/Client/Sending/Requests.antt =====
-- Files that are asked for, one by one and for all channels.
use cloud_node.Base.{
  if◌then◌else◌, Bool-cases, length, nat_ord, Text, text_ord, pair_ord, ℕ, ◌+◌, ◌≡◌, refl, ◌∙◌, inl,
  inr, true, false, ◌||◌, List, [], ◌∷◌, ◌++◌, map, append-nil, append_assoc, arith,
}
use cloud_node.Client.Specs.{FileSpec, is_empty}
use cloud_node.Client.State.{exit, ◌is◌, Key, Client}
use cloud_node.Client.Sending.{queue_file, queue_each, queue_file_to_all}

-- The request that a channel's peer and room, with the path, make: none if one of them is empty.
abbrev pub request : Text → Key → List FileSpec
request path (peer, room) =
    if is_empty peer || (is_empty room || is_empty path)
    then []
    else record { peer = peer; room = room; path = path } ∷ []

abbrev pub requests : Text → List Key → List FileSpec
requests path [] = []
requests path (key ∷ keys) = request path key ++ requests path keys

abbrev with_requests : List FileSpec → Client → Client
with_requests specs c = record c { queued_files = c.queued_files ++ specs }

queue_each-requests :
    (path : Text) (keys : List Key) (n : ℕ) (c : Client)
    → (c.state is exit) ≡ false
    → queue_each path keys n c
      ≡ (with_requests (requests path keys) c, n + length (requests path keys))
unfolding queue_each queue_file
queue_each-requests path [] n c h = ground (arith, append-nil c.queued_files)
queue_each-requests path ((peer, room) ∷ keys) n c h =
    elim (Bool-cases (is_empty peer || (is_empty room || is_empty path))) [
      | inl e ↦ rw (e, queue_file) (queue_each-requests path keys n c h)
      | inr e ↦
          let spec : FileSpec = record { peer = peer; room = room; path = path } in
          rw (e, h, queue_file)
            (queue_each-requests path keys (n + 1) (with_requests (spec ∷ []) c) h
              ∙ ground (arith, append_assoc c.queued_files (spec ∷ []) (requests path keys)))
    ]

queue_each-exit :
    (path : Text) (keys : List Key) (n : ℕ) (c : Client)
    → (c.state is exit) ≡ true
    → queue_each path keys n c ≡ (c, n)
unfolding queue_each queue_file
queue_each-exit path [] n c h = refl
queue_each-exit path ((peer, room) ∷ keys) n c h =
    elim (Bool-cases (is_empty peer || (is_empty room || is_empty path))) [
      | inl e ↦ rw (e, queue_file) (queue_each-exit path keys n c h)
      | inr e ↦ rw (e, h, queue_file) (queue_each-exit path keys n c h)
    ]

-- A file asked for on all channels: a client that is not stopped appends one request for each
-- outgoing channel, in the channels' order, save where the peer, the room or the path is empty, and
-- yields their number. A stopped client is as before, and yields 0. Nothing else changes.
pub queue_file_to_all-requests :
    (path : Text) (c : Client)
    → queue_file_to_all path c ≡ (
        if c.state is exit then (c, 0) else (
          record c {
            queued_files = c.queued_files ++ requests path (map (λ (key, _). key) c.data_channels);
          },
          length (requests path (map (λ (key, _). key) c.data_channels)),
        ))
unfolding queue_file_to_all
queue_file_to_all-requests path c = elim (Bool-cases (c.state is exit)) [
  | inl e ↦ rw e (queue_each-exit path (map (λ (key, _). key) c.data_channels) 0 c e)
  | inr e ↦
      rw e (queue_each-requests path (map (λ (key, _). key) c.data_channels) 0 c e ∙ ground arith)
]
