-- ===== src/Framework/Connection/Tests.antt =====
-- A connection that is made and taken down.
use sat_os_payload_sdk.Prelude.{◌≡◌, refl, true, false, [], ◌∷◌, none, some, is_some, pos, ◌++◌}
use sat_os_payload_sdk.Exec.{Error, ok, raised}
use sat_os_payload_sdk.Client.Upload.{Config}
use sat_os_payload_sdk.Client.Channel.{
  Host, Settings, create_channel, create_channel_common, connect_insecure, make_server,
  listen_insecure, start_server,
}
use sat_os_payload_sdk.Client.Calls.{Controller, api_pa_pc_register, api_call, response_shutdown}
use sat_os_payload_sdk.Framework.Connection.{Link, connect, connect_with, disconnect}
use sat_os_payload_sdk.Framework.Connection.Registered.{
  registration, connect-registers, disconnect_lem,
}

abbrev host : Host
host = record { endpoint_free = true; readable = λ f. false }

abbrev settings : Settings
settings = record { ssl_enable = "0"; keepalive_enable = "1" }

abbrev config : Config
config = record { cookie = some "c"; file_conn_str = none; truetwin_dir = none; share_name = none }

abbrev down : Link
down = record { channel = none; trace = []; wire = [] }

abbrev up : Link
up = record {
  channel = some (record { is_secure = true });
  trace = connect_insecure ∷ make_server true ∷ listen_insecure ∷ start_server ∷ [];
  wire = registration "c" ∷ [];
}

-- A controller that answers the registration and loses the second call.
abbrev controller : Controller
controller [] rpc = ok (pos 0)
controller (x ∷ wire) rpc = raised Error.failure

connect-registers_example :
    (is_some up.channel ≡ true)
    × (up.wire ≡ down.wire ++ registration "c" ∷ [])
    × (controller down.wire (registration "c") ≡ ok (pos 0))
unfolding connect connect_with create_channel create_channel_common api_pa_pc_register api_call
connect-registers_example =
    connect-registers host settings controller config down {k' = up} refl refl

-- The answer to the shutdown is lost, and the server is not stopped.
disconnect_lem_example : disconnect controller (some config) (pos 4) up ≡ (
  raised Error.failure,
  record up {
    wire =
        registration "c"
        ∷ record { request = response_shutdown (pos 4) (pos 0); cookie = "c" }
        ∷ [];
  },
)
disconnect_lem_example = disconnect_lem controller config (pos 4) up refl
