-- ===== src/Environment/Common.antt =====
-- lib/python/satos_payload_sdk/antaris_api_common.py: the settings that the client reads, and the test
-- of the endpoint for the controller's calls.
use sat_os_payload_sdk.Prelude.{
  ◌≡◌, refl, ℕ, Bool, true, false, List, [], ◌∷◌, All, Option, none, some, is_some, arith,
}
use sat_os_payload_sdk.Exec.{Error, Result, ok, raised}
use sat_os_payload_sdk.Environment.{Text, chars, Dict, lookup, default_values, get_conf}

-- The global variables of the module.
pub record Vars : Type 0 where
  pub listen_ip : Option Text
  pub payload_controller_ip : Option Text
  pub payload_app_ip : Option Text
  pub pc_grpc_server_port : Option Text
  pub pc_grpc_server_port_str : Option Text
  pub pa_grpc_server_port : Option Text
  pub pa_grpc_server_port_str : Option Text
  pub ssl_enable : Option Text
  pub keepalive_enable : Option Text

abbrev pub unset : Vars
unset = record {
  listen_ip = none;
  payload_controller_ip = none;
  payload_app_ip = none;
  pc_grpc_server_port = none;
  pc_grpc_server_port_str = none;
  pa_grpc_server_port = none;
  pa_grpc_server_port_str = none;
  ssl_enable = none;
  keepalive_enable = none;
}

-- `"{}".format(port)`
abbrev port_str : Option Text → Text
port_str none = chars "None"
port_str (some port) = port

-- `init_vars()`, over the values of the configuration file. The address of the application goes into
-- a variable of the function, since no global line names it.
unfoldable pub init_vars : Dict → Vars → Vars
init_vars values vars =
    let pc_port = get_conf (chars "PC_API_PORT") values in
    let pa_port = get_conf (chars "APP_API_PORT") values in
    record vars {
      listen_ip = get_conf (chars "LISTEN_IP") values;
      payload_controller_ip = get_conf (chars "PAYLOAD_CONTROLLER_IP") values;
      ssl_enable = get_conf (chars "SSL_FLAG") values;
      keepalive_enable = get_conf (chars "KEEPALIVE") values;
      pc_grpc_server_port = pc_port;
      pa_grpc_server_port = pa_port;
      pc_grpc_server_port_str = some (port_str pc_port);
      pa_grpc_server_port_str = some (port_str pa_port);
    }

-- What the operating system makes of the bind; an exception that is no socket error passes through.
pub data Bind : Type 0 where
  bound socket_error : Bind
  other_error : Error → Bind

-- `is_server_endpoint_available`, with the number of sockets that are left open.
unfoldable pub is_server_endpoint_available : Bind → ℕ → Result Bool × ℕ
is_server_endpoint_available bound open_sockets = (ok true, open_sockets)
is_server_endpoint_available socket_error open_sockets = (ok false, ℕ.suc open_sockets)
is_server_endpoint_available (other_error e) open_sockets = (raised e, ℕ.suc open_sockets)

get_conf-default :
    (prop : Text) (values : Dict) {d : Text}
    → lookup prop default_values ≡ some d
    → is_some (get_conf prop values) ≡ true
unfolding get_conf
get_conf-default prop values {d} h = ground (arith, h)

abbrev pub settings_of : Vars → List (Option Text)
settings_of vars =
    vars.listen_ip ∷ vars.payload_controller_ip ∷ vars.pc_grpc_server_port
    ∷ vars.pa_grpc_server_port ∷ vars.ssl_enable ∷ vars.keepalive_enable ∷ []

-- Whatever the configuration file holds, each of the settings has a value after the start of the
-- module, except for the address of the application, which stays None.
pub init_vars_complete :
    (values : Dict)
    → All (λ o. is_some o ≡ true) (settings_of (init_vars values unset))
      × ((init_vars values unset).payload_app_ip ≡ none)
unfolding init_vars default_values lookup
init_vars_complete values = (
  (
    get_conf-default (chars "LISTEN_IP") values refl,
    (
      get_conf-default (chars "PAYLOAD_CONTROLLER_IP") values refl,
      (
        get_conf-default (chars "PC_API_PORT") values refl,
        (
          get_conf-default (chars "APP_API_PORT") values refl,
          (
            get_conf-default (chars "SSL_FLAG") values refl,
            (get_conf-default (chars "KEEPALIVE") values refl, tt),
          ),
        ),
      ),
    ),
  ),
  refl,
)
