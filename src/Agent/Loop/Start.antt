-- ===== src/Agent/Loop/Start.antt =====
-- `setup_internal_listener` and the main program of agent.py, up to `worker`.
use sat_os_payload_sdk.Prelude.{◌≡◌, false, ◌&&◌, none, some, if◌then◌else◌, arith}
use sat_os_payload_sdk.Exec.{ok, raised, type_error, Exec, ◌>>=◌, ◌>>◌, modify}
use sat_os_payload_sdk.Agent.Loop.{
  Config, Agent, is_user, socket_create_listener, watch, setup_permanent_socket,
  install_permanent_handler,
}

module _ (c : Config) where
  listen_internal : Exec Agent (Unit {0})
  unfolding socket_create_listener
  listen_internal = do
    s ← socket_create_listener c c.server_ip c.server_port
    modify (λ a. record a { internal_listener = some s })
    watch s

  -- In flat-sat mode the user's side has no internal listener.
  unfoldable pub setup_internal_listener : Exec Agent (Unit {0})
  unfolding listen_internal
  setup_internal_listener a = if c.flat_sat && is_user c.mode then (ok tt, a) else listen_internal a

  unfoldable pub start : Exec Agent (Unit {0})
  start = do setup_permanent_socket c false; setup_internal_listener; install_permanent_handler c

  -- In flat-sat mode the ATMOS side may be started without a server port, and then ends with a TypeError
  -- where it sets up its internal listener.
  pub no_server_port :
      (a : Agent)
      → (c.flat_sat && is_user c.mode) ≡ false
      → c.server_port ≡ none
      → (setup_internal_listener a).0 ≡ raised type_error
  unfolding setup_internal_listener
  no_server_port a needed missing = ground (arith, needed, missing)
