-- ===== src/Program.antt =====
-- The program of src/CloudNode.cpp: src/parse_cl.cpp, include/PropertyBag.hpp, what `main` sets as
-- properties, and its callback for a change in the directory. `getopt_long` and `atoi` are parameters.
pub mod Changes
pub mod Roles
pub mod Main
use cloud_node.Base.{
  if◌then◌else◌, nat_ord, Text, text, text_ord, pair_ord, Bool, true, false, List, [], ◌∷◌,
}
use cloud_node.Base.Dict.{Dict}
use cloud_node.PropertyBag.{Value, string, int, bool, set}
use cloud_node.Json.{ℤ, pos}
use cloud_node.FileWatcher.{FileChange, added, modified, removed}
use cloud_node.Client.State.{Client, Env}
use cloud_node.Client.Incoming.{take_received_file}
use cloud_node.Client.Sending.{queue_file_to_all}
use cloud_node.Client.Specs.{is_empty}

pub record Cmdline : Type 0 where
  pub server : Bool
  pub timeout : ℤ
  pub max_message_size : ℤ
  pub message_address : Text
  pub message_port : ℤ
  pub stun_address : Text
  pub stun_port : ℤ
  pub name : Text
  pub directory : Text
  pub room : Text
  pub peer : Text
  pub file : Text
  pub help : Bool
  pub version : Bool

abbrev pub defaults : Cmdline
defaults = record {
  server = false;
  timeout = pos 10;
  max_message_size = pos 2097152;
  message_address = text "ws://localhost";
  message_port = pos 8080;
  stun_address = text "stun.l.google.com";
  stun_port = pos 19302;
  name = [];
  directory = [];
  room = text "DefaultRoom#1";
  peer = [];
  file = [];
  help = false;
  version = false;
}

-- What `getopt_long` can return, with `optarg` where the option has an argument.
pub data OptionGiven : Type 0 where
  flag_s flag_h flag_v other : OptionGiven
  arg_t arg_m arg_256 arg_257 arg_258 arg_259 arg_n arg_d arg_r arg_p arg_f : Text → OptionGiven

-- The command line, or the program's end by `usage`, with success or not.
pub data Parsed : Type 0 where
  read : Cmdline → Parsed
  exits : Bool → Parsed

module _ (atoi : Text → ℤ) where
  -- The switch of the loop.
  unfoldable pub option : OptionGiven → Cmdline → Parsed
  option flag_s p = read (record p { server = true })
  option (arg_t t) p = read (record p { timeout = atoi t })
  option (arg_m t) p = read (record p { max_message_size = atoi t })
  option (arg_256 t) p = read (record p { message_address = t })
  option (arg_257 t) p = read (record p { message_port = atoi t })
  option (arg_258 t) p = read (record p { stun_address = t })
  option (arg_259 t) p = read (record p { stun_port = atoi t })
  option (arg_n t) p = read (record p { name = t })
  option (arg_d t) p = read (record p { directory = t })
  option (arg_r t) p = read (record p { room = t })
  option (arg_p t) p = read (record p { peer = t })
  option (arg_f t) p = read (record p { file = t })
  option flag_h p = exits true
  option flag_v p = read (record p { version = true })
  option other p = exits false

  unfoldable pub parse_options : List OptionGiven → Cmdline → Parsed
  parse_options [] p = read p
  parse_options (o ∷ os) p = elim (option o p) [ read q ↦ parse_options os q | exits b ↦ exits b ]

-- The properties that `main` sets; `random` is what `RandomNameGenerator::Generate` yields.
unfoldable pub properties_of : Text → Cmdline → Dict Text Value
unfolding set
properties_of random p =
    let name = if is_empty p.name then random else p.name in
    set (text "maxMessageSize") (int p.max_message_size) (
      set (text "timeout") (int p.timeout) (
        set (text "name") (string name) (
          set (text "version") (bool p.version) (
            set (text "help") (bool p.help) (
              set (text "file") (string p.file) (
                set (text "peer") (string p.peer) (
                  set (text "room") (string p.room) (
                    set (text "directory") (string p.directory) (
                      set (text "server") (bool p.server) (
                        set (text "stunPort") (int p.stun_port) (
                          set (text "stunAddress") (string p.stun_address) (
                            set (text "messagePort") (int p.message_port) (
                              set (text "messageAddress") (string p.message_address) [])))))))))))))

abbrev pub queued_unless : Text → Client × Bool → Client
queued_unless file (c, true) = c
queued_unless file (c, false) = (queue_file_to_all file c).0

-- `main`'s callback of the file watcher, for a client.
unfoldable pub on_change : Env → Text → FileChange → Client → Client
on_change env file removed c = c
on_change env file added c = queued_unless file (take_received_file env file c)
on_change env file modified c = queued_unless file (take_received_file env file c)
