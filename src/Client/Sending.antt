-- ===== src/Client/Sending.antt =====
-- src/WebRTCClient.cpp: what a client asks for and offers: `QueueFile`, `QueueFileToAll`, `JoinRoom`,
-- `InRoom`, `SendPing`, `SendFileComplete` and `SendFileOffer`.
pub mod Roundtrip
pub mod Requests
use cloud_node.Base.{
  ◌>>=◌, ◌>>◌, text_ord, pair_ord, nat_ord, if◌then◌else◌, guard, ◌==◌, Text, text, ℕ, ◌+◌, Bool,
  true, false, ◌||◌, Option, none, some, List, [], ◌∷◌, ◌++◌, map,
}
use cloud_node.Base.Dict.{lookup, insert, erase}
use cloud_node.Base.Set
use cloud_node.Json.{Json}
use cloud_node.Rooms.{get_peers}
use cloud_node.Client.Specs.{is_empty}
use cloud_node.Client.State.{
  run, wait_for_file_accept, exit, ◌is◌, Key, DataChannel, is_ready, Client, Env, send_message,
}

-- `FindPeerConnection`
abbrev pub connection_of : Option DataChannel → Option ℕ
connection_of none = none
connection_of (some channel) = channel.pc

unfoldable pub find_peer_connection : Text → Text → Client → Option ℕ
find_peer_connection peer room c = connection_of (lookup (peer, room) c.data_channels)

-- `QueueFile`
unfoldable pub queue_file : Text → Text → Text → Client → Client × Bool
queue_file name room path c =
    if is_empty name || (is_empty room || is_empty path)
    then (c, false)
    else if c.state is exit
    then (c, false)
    else (
      record c {
        queued_files = c.queued_files ++ record { peer = name; room = room; path = path } ∷ [];
      },
      true,
    )

-- The second loop of `QueueFileToAll`, with the number queued so far.
unfoldable pub queue_each : Text → List Key → ℕ → Client → Client × ℕ
unfolding queue_file
queue_each path [] queued c = (c, queued)
queue_each path ((peer, room) ∷ targets) queued c =
    let (d, taken) = queue_file peer room path c in
    queue_each path targets (if taken then queued + 1 else queued) d

-- `QueueFileToAll`
unfoldable pub queue_file_to_all : Text → Client → Client × ℕ
unfolding queue_each
queue_file_to_all path c = queue_each path (map (λ (key, _). key) c.data_channels) 0 c

-- The bytes before the first NUL, as of `room.c_str()`.
unfoldable pub c_str : Text → Text
c_str [] = []
c_str (b ∷ t) = let rest = c_str t in if b == 0 then [] else b ∷ rest

-- The calls of src/include/MimeDetector.hpp and of std::filesystem: whether `absolute` returns,
-- `lexically_relative`, and `get_file_info` with the offered path.
pub record Files : Type 0 where
  pub resolves : Text → Bool
  pub relative : Text → Text → Text
  pub file_info : Text → Text → Option Text

module _ (env : Env) where
  -- `InRoom`
  unfoldable pub in_room : Text → Client → Bool
  in_room room c = elim (get_peers room c.rooms) [
    | none ↦ false
    | some peers ↦ Set.contains env.name peers
  ]

  abbrev pub sent_if_taken : Text → Client → Client × Bool
  sent_if_taken message c = if env.takes message then (send_message message c, true) else (c, false)

  -- `SendPing`
  unfoldable pub send_ping : Client → Client × Bool
  send_ping c = sent_if_taken (text "{ \"type\" : \"ping\" }") c

  -- `SendFileComplete`
  unfoldable pub send_file_complete : Text → Text → Client → Client
  send_file_complete room peer c =
      (sent_if_taken
        (text "{\"type\" : \"file_complete\", \"room\" : \""
          ++ (room ++ (text "\", \"peer\" : \"" ++ (peer ++ text "\"}"))))
        c).0

  -- `JoinRoom`
  unfoldable pub join_room : Json → Text → Client → Client × Bool
  unfolding c_str
  join_room J room c =
      sent_if_taken
        (J.write (
          J.add (text "room") (J.string (c_str room))
            (J.add (text "type") (J.string (text "join")) J.empty)))
        c

  abbrev pub offered_path : Files → Text → Text
  offered_path files path =
      if is_empty env.directory
      then env.absolute path
      else files.relative (env.absolute path) (env.absolute env.directory)

  abbrev pub ready_channel : Option DataChannel → Option DataChannel
  ready_channel none = none
  ready_channel (some channel) = if is_ready channel then some channel else none

  -- The checks of `SendFileOffer`, and the file's description.
  unfoldable pub offer_details : Files → Text → Text → Text → Client → Option Text
  offer_details files room peer path c = do
    guard (files.resolves path)
    details ← files.file_info path (offered_path files path)
    channel ← ready_channel (lookup (peer, room) c.data_channels)
    some details

  unfoldable pub offer_payload : Text → Text → Text → Text → Text
  offer_payload uuid room peer details =
      text "{\"type\" : \"file_offer\", "
      ++ (text " \"uuid\" : \""
          ++ (uuid
              ++ (text "\", "
                  ++ (text " \"room\" : \""
                      ++ (room
                          ++ (text "\", "
                              ++ (text " \"peer\" : \""
                                  ++ (peer
                                      ++ (text "\", "
                                          ++ (text " \"file\" : "
                                              ++ (details ++ (text " " ++ text "}"))))))))))))

  abbrev pub tracked : Text → Key → Text → Client → Client
  tracked uuid key path c = record c {
    state = wait_for_file_accept;
    pending_offers = insert uuid (record { key = key; path = path }) c.pending_offers;
  }

  abbrev pub offered : Text → Text → Text → Text → Option Text → Client → Client × Bool
  offered uuid room peer path none c = (c, false)
  offered uuid room peer path (some details) c =
      let waiting = tracked uuid (peer, room) path c in
      let payload = offer_payload uuid room peer details in
      if env.takes payload then (send_message payload waiting, true) else (
        record waiting { pending_offers = erase uuid waiting.pending_offers; state = run },
        false,
      )

  -- `SendFileOffer`, with the identifier that `generateUUID` yields
  unfoldable pub send_file_offer : Files → Text → Text → Text → Text → Client → Client × Bool
  unfolding offer_details offer_payload
  send_file_offer files uuid room peer path c =
      offered uuid room peer path (offer_details files room peer path c) c
