-- ===== src/Program/Roles.antt =====
-- src/WebRTC.cpp: what the two roles read of the properties: `WebRTC::Create` and `WebRTC::Start`.
use cloud_node.Base.{
  arith, if◌then◌else◌, nat_ord, Text, text, text_cmp, text_ord, pair_ord, ◌≡◌, refl, Option, none,
  some,
}
use cloud_node.Base.Dict.{Dict, lookup, insert}
use cloud_node.Json.{ℤ}
use cloud_node.PropertyBag.{
  Value, Got, got, out_of_range, bad_variant_access, as_string, as_int, as_bool, set, get, contains,
}
use cloud_node.Client.Specs.{is_empty}
use cloud_node.Program.{Cmdline, properties_of}

pub data Role : Type 0 where
  server client : Role

-- An exception ends the call.
abbrev pub after {ℓ κ} : {A : Type ℓ} {B : Type κ} → Got A → (A → Got B) → Got B
after (got a) k = k a
after out_of_range k = out_of_range
after bad_variant_access k = bad_variant_access

-- `MessagePort::Create`, with the name
pub data Port : Type 0 where
  port_server port_client : Text → Port

unfoldable pub create_port : Role → Text → Port
create_port server name = port_server name
create_port client name = port_client name

-- `Create`, with the constructor that makes the role's port
unfoldable pub create : Dict Text Value → Got (Role × Port)
unfolding create_port
create properties = after (get as_bool (text "server") properties) λ is_server.
    let role = if is_server then server else client in
    after (get as_string (text "name") properties) λ name. got (role, create_port role name)

-- What `Start` gives to the message port: the delay of `SetReconnectDelay`, if it is set, and the
-- address and port of `Start`.
pub record PortStart : Type 0 where
  pub reconnect_delay : Option ℤ
  pub address : Text
  pub port : ℤ

abbrev pub delay_of : Dict Text Value → Got (Option ℤ)
delay_of properties =
    if contains (text "timeout") properties
    then after (get as_int (text "timeout") properties) (λ n. got (some n))
    else got none

-- `Start`
unfoldable pub port_start : Dict Text Value → Got PortStart
port_start properties = after (delay_of properties) λ delay.
    after (get as_string (text "messageAddress") properties) λ address.
      after (get as_int (text "messagePort") properties)
        λ port. got (record { reconnect_delay = delay; address = address; port = port })

-- A property that the roles read is of the type that they ask for, and what the command line says.
pub record IsRead (name : Text) (p : Cmdline) (bag : Dict Text Value) : Type 0 where
  pub role :
      create bag ≡ got (if p.server then (server, port_server name) else (client, port_client name))
  pub port :
      port_start bag
      ≡ got (record {
        reconnect_delay = some p.timeout;
        address = p.message_address;
        port = p.message_port;
      })
  pub named : get as_string (text "name") bag ≡ got name
  pub directory : get as_string (text "directory") bag ≡ got p.directory
  pub room : get as_string (text "room") bag ≡ got p.room
  pub peer : get as_string (text "peer") bag ≡ got p.peer
  pub file : get as_string (text "file") bag ≡ got p.file
  pub timeout : get as_int (text "timeout") bag ≡ got p.timeout
  pub max_message_size : get as_int (text "maxMessageSize") bag ≡ got p.max_message_size
  pub stun_address : get as_string (text "stunAddress") bag ≡ got p.stun_address
  pub stun_port : get as_int (text "stunPort") bag ≡ got p.stun_port

-- Whatever the command line, the program's properties have all that the roles read, under the type that
-- they ask for: no `Get` throws, `--server` decides the role, and each value is the option's; the name
-- is the random one where none is given.
pub properties_of-IsRead :
    (random : Text) (p : Cmdline)
    → IsRead (if is_empty p.name then random else p.name) p (properties_of random p)
unfolding create port_start properties_of get contains set lookup insert text_cmp
properties_of-IsRead random p = record {
  role = ground arith;
  port = refl;
  named = refl;
  directory = refl;
  room = refl;
  peer = refl;
  file = refl;
  timeout = refl;
  max_message_size = refl;
  stun_address = refl;
  stun_port = refl;
}
