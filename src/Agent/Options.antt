-- ===== src/Agent/Options.antt =====
-- `parse_opts` of agent.py: the command line, after `getopt` has cut it into pairs of an option
-- and its argument. `int` is Python's conversion of a text, `none` for a ValueError.
pub mod Checks
mod Tests
use sat_os_payload_sdk.Prelude.{
  String, Bool, true, false, not, ◌&&◌, ◌||◌, List, [], ◌∷◌, Option, none, some, str_eq, is_some,
  if◌then◌else◌, ℤ, pos,
}

-- The globals that the options set.
pub record Options : Type 0 where
  pub agent_mode : Option String
  pub agent_public_ip : Option String
  pub agent_public_port : Option ℤ
  pub server_ip : Option String
  pub server_port : Option ℤ
  pub internal_peer_ip : Option String
  pub internal_peer_port : Option ℤ
  pub flat_sat_mode : Bool
  pub udp_mode : Bool
  pub udp_cmd_size : ℤ

-- The values of the globals when the module is loaded.
abbrev pub defaults : Options
defaults = record {
  agent_mode = none;
  agent_public_ip = none;
  agent_public_port = none;
  server_ip = none;
  server_port = none;
  internal_peer_ip = none;
  internal_peer_port = none;
  flat_sat_mode = false;
  udp_mode = false;
  udp_cmd_size = pos 1410;
}

-- How `parse_opts` ends: it returns, it leaves the program with status 0 or -1, or it lets the
-- ValueError of `int` out.
pub data Parsed (A : Type 0) : Type 0 where
  returned : A → Parsed A
  exit_zero exit_failure value_error : Parsed A

infixl 5 ◌>>=◌
abbrev pub ◌>>=◌ : {A B : Type 0} → Parsed A → (A → Parsed B) → Parsed B
returned a >>= f = f a
exit_zero >>= f = exit_zero
exit_failure >>= f = exit_failure
value_error >>= f = value_error

-- `opt in (short, long)`
abbrev pub is_opt : String → String → String → Bool
is_opt opt short long = str_eq opt short || str_eq opt long

abbrev pub is_valid_mode : String → Bool
is_valid_mode m = str_eq m "user" || str_eq m "atmos"

-- The arms of the `elif` chain; `unknown` falls through all of them.
pub data Opt : Type 0 where
  help mode public_ip public_port server_ip server_port local_ip local_port : Opt
  flat_sat udp unknown : Opt

pub option_of : String → Opt
option_of opt =
    if is_opt opt "-h" "--help"
    then help
    else if is_opt opt "-m" "--mode"
    then mode
    else if is_opt opt "-i" "--web-public-ip"
    then public_ip
    else if is_opt opt "-p" "--web-public-port"
    then public_port
    else if is_opt opt "-s" "--internal-server-ip"
    then server_ip
    else if is_opt opt "-t" "--internal-server-port"
    then server_port
    else if is_opt opt "-l" "--local-peer-ip"
    then local_ip
    else if is_opt opt "-o" "--local-peer-port"
    then local_port
    else if is_opt opt "-f" "--flat-sat-mode"
    then flat_sat
    else if is_opt opt "-u" "--udp-mode"
    then udp
    else unknown

-- The tests behind the loop, in their order.
pub require : Options → Parsed Options
require o =
    if not (is_some o.agent_mode)
    then exit_failure
    else if not (is_some o.agent_public_ip)
    then exit_failure
    else if not (is_some o.agent_public_port)
    then exit_failure
    else if not (is_some o.server_ip) && not o.flat_sat_mode
    then exit_failure
    else if not (is_some o.server_port) && not o.flat_sat_mode
    then exit_failure
    else if not (is_some o.internal_peer_ip)
    then exit_failure
    else if not (is_some o.internal_peer_port)
    then exit_failure
    else if not o.flat_sat_mode && o.udp_mode
    then exit_failure
    else returned o

module _ (int : String → Option ℤ) where
  -- `field = int(arg)`
  abbrev pub with_int : String → (ℤ → Options) → Parsed Options
  with_int arg f = elim (int arg) [ none ↦ value_error | some n ↦ returned (f n) ]

  -- The arm that the option chose.
  pub set_by : Opt → String → Options → Parsed Options
  set_by help arg o = exit_zero
  set_by mode arg o =
      if is_valid_mode arg then returned (record o { agent_mode = some arg }) else exit_zero
  set_by public_ip arg o = returned (record o { agent_public_ip = some arg })
  set_by public_port arg o = with_int arg (λ n. record o { agent_public_port = some n })
  set_by server_ip arg o = returned (record o { server_ip = some arg })
  set_by server_port arg o = with_int arg (λ n. record o { server_port = some n })
  set_by local_ip arg o = returned (record o { internal_peer_ip = some arg })
  set_by local_port arg o = with_int arg (λ n. record o { internal_peer_port = some n })
  set_by flat_sat arg o = returned (record o { flat_sat_mode = true })
  set_by udp arg o =
      if str_eq arg ""
      then returned (record o { udp_mode = true })
      else with_int arg (λ n. record o { udp_mode = true; udp_cmd_size = n })
  set_by unknown arg o = returned o

  -- The body of the loop over the options.
  pub set_opt : String → String → Options → Parsed Options
  unfolding set_by
  set_opt opt arg o = set_by (option_of opt) arg o

  pub set_opts : List (String × String) → Options → Parsed Options
  set_opts [] o = returned o
  set_opts ((opt, arg) ∷ opts) o = set_opt opt arg o >>= set_opts opts

  -- `none` stands for a GetoptError.
  pub parse_opts : Option (List (String × String)) → Options → Parsed Options
  unfolding set_opts set_opt require
  parse_opts none o = exit_failure
  parse_opts (some opts) o = set_opts opts o >>= require
