-- ===== src/Client/Channel.antt =====
-- src/WebRTCClient.cpp and src/LocalDescription.cpp: an outgoing channel, from `MakeDataChannel` and
-- `obtainInitialDescription` to the loop of the transfer thread that reads a file.
pub mod Reading
pub mod Transferred
use cloud_node.Base.{
  ltb, if◌then◌else◌, ◌>>=◌, ◌>>◌, guard, length, take, drop, ◌==◌, nat_ord, Text, text, text_ord,
  pair_ord, ℕ, zero, suc, ◌+◌, Bool, true, false, ◌&&◌, Option, none, some, List, [], ◌∷◌, ◌++◌,
}
use cloud_node.Base.Dict.{insert, erase}
use cloud_node.LocalDescription.{Base64, LocalDescription, descriptions_json, candidates_json}
use cloud_node.Client.State.{Key, DataChannel, Client, Env, send_message}

-- What the rtc library does with a new connection to a peer in a room: whether it makes the data
-- channel, and the description once the candidates are gathered, or a timeout.
pub record Rtc : Type 0 where
  pub makes_channel : Key → Bool
  pub gathered : Key → Option LocalDescription

abbrev pub has_descriptions : LocalDescription → Option LocalDescription
has_descriptions d = elim d.descriptions [ [] ↦ none | item ∷ items ↦ some d ]

-- `obtainInitialDescription`
unfoldable pub obtain_initial_description : Rtc → Key → Option LocalDescription
obtain_initial_description rtc key = do
  guard (rtc.makes_channel key)
  description ← rtc.gathered key
  has_descriptions description

-- The loop of the transfer thread over `file.read(...) || file.gcount() > 0`, as the chunks that it
-- sends: on fuel, since with a size of 0 every read succeeds.
unfoldable pub read_chunks : ℕ → ℕ → Text → Option (List Text)
read_chunks zero size file = none
read_chunks (suc fuel) size file =
    let rest = read_chunks fuel size (drop size file) in
    let last = ltb (length file) size in
    if last && length file == 0
    then some []
    else if last
    then some (file ∷ [])
    else (do chunks ← rest; some (take size file ∷ chunks))

module _ (env : Env) (rtc : Rtc) (base64 : Base64) where
  -- The message of `MakeDataChannel`
  unfoldable pub channel_payload : Key → LocalDescription → Text
  unfolding descriptions_json candidates_json
  channel_payload (peer, room) description =
      text "{\"type\" : \"offer\", "
      ++ (text "\"room\" : \""
          ++ (room
              ++ (text "\", "
                  ++ (text "\"peer\" : \""
                      ++ (peer
                          ++ (text "\", "
                              ++ (descriptions_json base64 description
                                  ++ (text ", "
                                      ++ (candidates_json base64 description ++ text "}")))))))))

  -- The connection, its channel and its queue, under fresh names.
  abbrev pub named : ℕ → DataChannel
  named n = record {
    pc = some n;
    channel = some (n + 1);
    file_q = some (n + 2);
    decision_closed = false;
  }

  abbrev pub stored : Key → Client → Client
  stored key c = record c {
    data_channels = insert key (named c.fresh) c.data_channels;
    queues = insert (c.fresh + 2) [] c.queues;
    fresh = c.fresh + 3;
  }

  abbrev pub offered_channel : Key → Option LocalDescription → Client → Client × Bool
  offered_channel key none c = (record c { fresh = c.fresh + 3 }, false)
  offered_channel key (some description) c =
      let d = stored key c in
      let payload = channel_payload key description in
      if env.takes payload
      then (send_message payload d, true)
      else (record d { data_channels = erase key d.data_channels }, false)

  -- `MakeDataChannel`
  unfoldable pub make_data_channel : Key → Client → Client × Bool
  unfolding obtain_initial_description channel_payload
  make_data_channel key c = offered_channel key (obtain_initial_description rtc key) c
