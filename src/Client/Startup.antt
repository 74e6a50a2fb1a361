-- ===== src/Client/Startup.antt =====
-- src/WebRTCClient.cpp: the files that `StartClient` offers and the rooms that it joins at its startup.
use cloud_node.Base.{
  if◌then◌else◌, nat_ord, Text, text_ord, pair_ord, Bool, true, false, Option, none, some, List, [],
  ◌∷◌,
}
use cloud_node.Base.Set
use cloud_node.Client.Specs.{FileSpec, is_empty, parse_file_specs, plain_file_specs}

-- The properties that the thread reads: `--peer`, `--room` and `--file`.
pub record Options : Type 0 where
  pub peer : Option Text
  pub room : Option Text
  pub file : Option Text

-- The files of `--file` at startup: of a plain list if there is a `--peer`, which wants a `--room`.
pub data Parsed : Type 0 where
  files : List FileSpec → Parsed
  malformed : Parsed
  throws : Parsed

abbrev pub or_empty_text : Option Text → Text
or_empty_text none = []
or_empty_text (some t) = t

abbrev pub parsed : Bool × List FileSpec → Parsed
parsed (true, specs) = files specs
parsed (false, specs) = malformed

abbrev pub plain_files : Text → Option Text → Text → Parsed
plain_files peer none paths = throws
plain_files peer (some room) paths = files (plain_file_specs peer room paths)

abbrev pub file_list : Text → Option Text → Option Text → Parsed
file_list peer room none = files []
file_list peer room (some t) =
    if is_empty peer then parsed (parse_file_specs t) else plain_files peer room t

unfoldable pub startup_files : Options → Parsed
startup_files o = file_list (or_empty_text o.peer) o.room o.file

-- The rooms of `--room` and of the files, sorted and each once.
abbrev pub spec_rooms : List FileSpec → List Text
spec_rooms [] = []
spec_rooms (spec ∷ specs) = Set.insert spec.room (spec_rooms specs)

abbrev pub with_room : Option Text → List Text → List Text
with_room none rooms = rooms
with_room (some room) rooms = Set.insert room rooms

unfoldable pub startup_rooms : Options → List FileSpec → List Text
startup_rooms o specs = with_room o.room (spec_rooms specs)
