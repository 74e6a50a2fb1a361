-- ===== src/Client/State.antt =====
-- include/WebRTCClient.hpp: what a client keeps.
use cloud_node.Base.{
  is_some, nat_ord, Text, text_ord, pair_ord, ℕ, Bool, true, false, ◌&&◌, Option, List, [], ◌∷◌,
  ◌++◌,
}
use cloud_node.Base.Dict.{Dict}
use cloud_node.Json.{ℤ}
use cloud_node.Rooms.{Rooms}
use cloud_node.Client.Specs.{FileSpec}

-- `CLIENT_INIT` and so on
pub data ClientState : Type 0 where
  init waiting_for_join joined run ping wait_for_pong wait_for_file_accept exit : ClientState

infix 50 ◌is◌
abbrev pub ◌is◌ : ClientState → ClientState → Bool
init is init = true
waiting_for_join is waiting_for_join = true
joined is joined = true
run is run = true
ping is ping = true
wait_for_pong is wait_for_pong = true
wait_for_file_accept is wait_for_file_accept = true
exit is exit = true
_ is _ = false

-- `PeerRoomKey`
abbrev pub Key : Type 0
Key = Text × Text

pub record PendingOffer : Type 0 where
  pub key : Key
  pub path : Text

-- The shared pointers of a `DataChannel`, and whether its `fileDecision` is closed. A queue is named,
-- since the sending thread holds it too.
pub record DataChannel : Type 0 where
  pub pc : Option ℕ
  pub channel : Option ℕ
  pub file_q : Option ℕ
  pub decision_closed : Bool

-- `DataChannel::operator bool`
unfoldable pub is_ready : DataChannel → Bool
is_ready d = is_some d.pc && is_some d.channel && is_some d.file_q

-- `IncomingFile`: its stream is open on the destination or not, and has written so many bytes.
pub record IncomingFile : Type 0 where
  pub destination : Text
  pub expected_size : ℤ
  pub is_open : Bool
  pub written : ℕ

-- A call of a peer connection, which is named: the description and its type, or the candidate and its
-- `mid`.
pub data RtcCall : Type 0 where
  set_remote_description : ℕ → Text → Text → RtcCall
  create_answer : ℕ → RtcCall
  add_remote_candidate : ℕ → Text → Text → RtcCall

pub record Client : Type 0 where
  pub state : ClientState
  pub transport_open : Bool
  pub room : Text
  pub rooms : Rooms
  pub queued_files : List FileSpec
  pub pending_offers : Dict Text PendingOffer
  pub data_channels : Dict Key DataChannel
  pub incoming_channels : Dict Key DataChannel
  pub incoming_files : Dict Key (List IncomingFile)
  pub received_paths : List Text
  -- The file queues by name, which outlive the channels that are dropped.
  pub queues : Dict ℕ (List Text)
  -- The first name that no connection, channel or queue has yet.
  pub fresh : ℕ
  -- The calls of peer connections so far.
  pub calls : List RtcCall
  -- What the streams of incoming files have written.
  pub disk : Dict Text Text
  -- The messages given to the message port so far.
  pub sent : List Text

-- The property bag's entries that handlers read, and the outcomes of calls that leave the program:
-- whether the port takes a message, a lock or a file is had, a write succeeds, a directory is made.
pub record Env : Type 0 where
  pub name : Text
  pub directory : Text
  pub takes : Text → Bool
  pub lockable : Text → Bool
  pub openable : Text → Bool
  pub writable : Text → Bool
  pub prepares : Text → Bool
  -- `fs::absolute(p).lexically_normal().string()`
  pub absolute : Text → Text
  -- `get_crc` of a regular file that is there
  pub crc : Text → Option ℕ

-- `SendMessage`
abbrev pub send_message : Text → Client → Client
send_message message c = record c { sent = c.sent ++ message ∷ [] }
