-- ===== src/Client/Session.antt =====
-- The session of src/WebRTCClient.cpp: membership as the server announces it, the transport's
-- events, the ping's answer, and the answers to a client's own file offers.
pub mod Agreement
pub mod Decisions
pub mod Interruption
use cloud_node.Base.{
  ◌>>=◌, ◌>>◌, text_ord, pair_ord, nat_ord, if◌then◌else◌, is_some, guard, ◌==◌, Text, text, ℕ,
  Bool, true, false, ◌&&◌, ◌≡◌, refl, Option, none, some, List, [], ◌∷◌, ◌++◌,
}
use cloud_node.Base.Dict.{Dict, lookup, insert, erase}
use cloud_node.Base.Set
use cloud_node.Json.{Json, Run, done, fault, string_member, array_member}
use cloud_node.Rooms
use cloud_node.Rooms.{update_peers, clear_rooms}
use cloud_node.Client.State.{
  init, waiting_for_join, joined, run, wait_for_pong, wait_for_file_accept, exit, ◌is◌, Key,
  PendingOffer, DataChannel, Client, Env,
}

-- `OnMessageOpen`
unfoldable pub on_message_open : Client → Client
on_message_open c = record c { transport_open = true }

-- `WakeFileTransferWorkers`: every decision is closed.
unfoldable pub wake_file_transfer_workers : Dict Key DataChannel → Dict Key DataChannel
wake_file_transfer_workers [] = []
wake_file_transfer_workers ((key, channel) ∷ m) =
    (key, record channel { decision_closed = true }) ∷ wake_file_transfer_workers m

-- `OnMessageClose`
unfoldable pub on_message_close : Client → Client
unfolding wake_file_transfer_workers clear_rooms
on_message_close c =
    if c.state is exit
    then record c { data_channels = wake_file_transfer_workers c.data_channels }
    else record c {
      state = init;
      transport_open = false;
      data_channels = [];
      incoming_channels = [];
      rooms = clear_rooms c.rooms;
    }

-- `Start` and `Stop`, on the state that they guard
unfoldable pub start : Client → Client
start c = record c { state = init; transport_open = false }

unfoldable pub stop : Client → Client
unfolding wake_file_transfer_workers
stop c = record c { state = exit; data_channels = wake_file_transfer_workers c.data_channels }

-- `IsRunning`
unfoldable pub is_running : Client → Bool
is_running c = if c.state is exit then false else true

-- Once stopped, the client does not run, and a connection that closes then does not start it again.
stop-is_running : (c : Client) → is_running (stop c) ≡ false
unfolding is_running stop
stop-is_running c = refl

stop-on_message_close : (c : Client) → is_running (on_message_close (stop c)) ≡ false
unfolding is_running stop on_message_close
stop-on_message_close c = refl

module _ (J : Json) (env : Env) where
  -- The set of the strings, if all are strings.
  unfoldable pub peer_set : List J.Value → List Text → Option (List Text)
  peer_set [] peers = some peers
  peer_set (v ∷ vs) peers = elim (J.string? v) [
    | none ↦ none
    | some peer ↦ peer_set vs (Set.insert peer peers)
  ]

  abbrev pub confirmed : Text → Text → Client → Client
  confirmed room peer c =
      if (c.state is waiting_for_join) && (room == c.room && peer == env.name)
      then record c { state = joined }
      else c

  unfoldable pub join_news : J.Value → Option (Text × Text × List Text)
  unfolding peer_set
  join_news doc = do
    room ← string_member J (text "room") doc
    peer ← string_member J (text "peerId") doc
    values ← array_member J (text "peers") doc
    peers ← peer_set values []
    some (room, peer, peers)

  abbrev pub on_news : Option (Text × Text × List Text) → Client → Client
  on_news none c = c
  on_news (some (room, peer, peers)) c =
      confirmed room peer (record c { rooms = update_peers room peers c.rooms })

  -- `OnJoin`
  unfoldable pub on_join : J.Value → Client → Run Client
  unfolding join_news
  on_join doc c = done (on_news (join_news doc) c)

  -- `OnLeave`, which reads `doc["peers"]` unchecked
  abbrev pub left : Text → Option (List Text) → Client → Client
  left room none c = c
  left room (some peers) c = record c { rooms = update_peers room peers c.rooms }

  abbrev pub on_leave_values : Text → Option (List J.Value) → Client → Run Client
  on_leave_values room none c = fault
  on_leave_values room (some values) c = done (left room (peer_set values []) c)

  abbrev pub leave_request : J.Value → Option (Text × Text)
  leave_request doc = do
    room ← string_member J (text "room") doc
    peer ← string_member J (text "peerId") doc
    some (room, peer)

  abbrev pub on_leave_request : J.Value → Option (Text × Text) → Client → Run Client
  on_leave_request doc none c = done c
  on_leave_request doc (some (room, peer)) c =
      on_leave_values room (array_member J (text "peers") doc)
        (record c { rooms = (Rooms.leave peer room c.rooms).0 })

  unfoldable pub on_leave : J.Value → Client → Run Client
  unfolding peer_set
  on_leave doc c = on_leave_request doc (leave_request doc) c

  abbrev pub is_pong : J.Value → Option (Unit {0})
  is_pong doc = do
    type ← string_member J (text "type") doc
    guard (type == text "pong")
    id ← string_member J (text "id") doc
    guard (id == env.name)

  -- `OnPingPong`
  unfoldable pub on_ping_pong : J.Value → Client → Run Client
  on_ping_pong doc c =
      done (
        if is_some (is_pong doc) && (c.state is wait_for_pong) then record c { state = run } else c)

  -- `TakePendingOffer`
  unfoldable pub take_pending_offer : J.Value → Client → Client × Option PendingOffer
  take_pending_offer doc c = elim (string_member J (text "uuid") doc) [
    | none ↦ (c, none)
    | some uuid ↦ elim (lookup uuid c.pending_offers) [
      | none ↦ (c, none)
      | some offer ↦ (record c { pending_offers = erase uuid c.pending_offers }, some offer)
    ]
  ]

  abbrev pub resumed : Client → Client
  resumed c = if c.state is wait_for_file_accept then record c { state = run } else c

  -- `AddItem(fileQ, path)`
  abbrev pub add_item : ℕ → Text → Client → Client
  add_item q path c = record c {
    queues =
        insert q ((elim (lookup q c.queues) [ none ↦ [] | some paths ↦ paths ]) ++ path ∷ [])
          c.queues;
  }

  abbrev pub file_queue : Option DataChannel → Option ℕ
  file_queue none = none
  file_queue (some channel) = channel.file_q

  abbrev pub accepted : Option PendingOffer → Client → Client
  accepted none c = c
  accepted (some offer) c = elim (file_queue (lookup offer.key c.data_channels)) [
    | none ↦ c
    | some q ↦ resumed (add_item q offer.path c)
  ]

  -- `OnFileAccept`
  unfoldable pub on_file_accept : J.Value → Client → Run Client
  unfolding take_pending_offer
  on_file_accept doc c =
      let (taken, offer) = take_pending_offer doc c in done (accepted offer taken)

  abbrev pub rejected : Option PendingOffer → Client → Client
  rejected none c = c
  rejected (some offer) c = resumed c

  -- `OnFileReject`
  unfoldable pub on_file_reject : J.Value → Client → Run Client
  unfolding take_pending_offer
  on_file_reject doc c =
      let (taken, offer) = take_pending_offer doc c in done (rejected offer taken)

  -- `OnFileComplete`, which only logs
  unfoldable pub on_file_complete : J.Value → Client → Run Client
  on_file_complete doc c = done c
