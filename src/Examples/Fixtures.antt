-- ===== src/Examples/Fixtures.antt =====
-- A server with one room, a client, and the documents that they meet.
use cloud_node.Base.{
  if◌then◌else◌, ◌==◌, ==_iff, nat_ord, Text, text, text_ord, pair_ord, true, false, Option, none,
  some, [], ◌∷◌, arith,
}
use cloud_node.Base.Dict.{lookup}
use cloud_node.Base.Set
use cloud_node.Json.{Json, pos}
use cloud_node.Json.Values.{Val, Vals, Fields, values}
use cloud_node.Rooms.{members}
use cloud_node.Server.{Ws, Server}
use cloud_node.Server.Consistency.{IsConsistent}
use cloud_node.Client.Sending.{Files}
use cloud_node.Client.State.{ClientState, Client, Env, DataChannel}

-- A document is written as the name of its type.
abbrev pub written : Val → Text
written (Val.obj (Fields.field k (Val.str type) fs)) = type
written _ = []

abbrev pub offer_doc : Val
offer_doc = Val.obj (
    Fields.field (text "type") (Val.str (text "offer")) (
      Fields.field (text "peer") (Val.str (text "bob")) (
        Fields.field (text "room") (Val.str (text "lab"))
          (Fields.field (text "descriptions") (Val.arr Vals.nil) Fields.end))))

abbrev pub join_doc : Val
join_doc = Val.obj (
    Fields.field (text "type") (Val.str (text "join"))
      (Fields.field (text "room") (Val.str (text "lab")) Fields.end))

abbrev pub file_doc : Val
file_doc = Val.obj (
    Fields.field (text "type") (Val.str (text "file_offer")) (
      Fields.field (text "peer") (Val.str (text "bob")) (
        Fields.field (text "room") (Val.str (text "lab")) (
          Fields.field (text "file")
            (Val.obj (
              Fields.field (text "name") (Val.str (text "a")) (
                Fields.field (text "size") (Val.num (pos 3))
                  (Fields.field (text "mimeType") (Val.str (text "text")) Fields.end))))
            Fields.end))))

abbrev pub reading : Text → Option Val
reading t =
    if t == text "join" then some join_doc else if t == text "offer" then some offer_doc else none

abbrev pub J : Json
J = values reading written

abbrev pub ann : Ws
ann = record { handle = 1; x_client_id = text "ann" }

abbrev pub bob : Ws
bob = record { handle = 2; x_client_id = text "bob" }

abbrev pub cy : Ws
cy = record { handle = 3; x_client_id = text "cy" }

abbrev pub two_in_lab : Server
two_in_lab = record {
  rooms = (text "lab", text "ann" ∷ text "bob" ∷ []) ∷ [];
  client_db = (text "ann", ann) ∷ (text "bob", bob) ∷ [];
  sent = [];
}

pub two_in_lab-IsConsistent : IsConsistent two_in_lab
unfolding members Set.contains lookup
two_in_lab-IsConsistent = record {
  reachable = λ p r h. ground (arith, h);
  filed = λ p {ws} h. ground (arith, h, ==_iff p (text "ann"), ==_iff p (text "bob"));
}

-- A client that can lock, open and write all files, and whose port takes all messages.
abbrev pub env : Env
env = record {
  name = text "ann";
  directory = text "in";
  takes = λ _. true;
  lockable = λ _. true;
  openable = λ _. true;
  writable = λ _. true;
  prepares = λ _. true;
  absolute = λ path. path;
  crc = λ _. none;
}

abbrev pub channel : DataChannel
channel = record { pc = some 1; channel = some 2; file_q = some 7; decision_closed = false }

abbrev pub client : Client
client = record {
  state = ClientState.wait_for_file_accept;
  transport_open = true;
  room = text "lab";
  rooms = [];
  queued_files = [];
  pending_offers = (text "u1", record { key = (text "bob", text "lab"); path = text "a" }) ∷ [];
  data_channels = ((text "bob", text "lab"), channel) ∷ [];
  incoming_channels = [];
  incoming_files = [];
  received_paths = [];
  queues = [];
  fresh = 8;
  calls = [];
  disk = [];
  sent = [];
}

-- A sender to whom every path resolves.
abbrev pub files : Files
files = record {
  resolves = λ _. true;
  relative = λ path _. path;
  file_info = λ _ _. some (text "{}");
}
