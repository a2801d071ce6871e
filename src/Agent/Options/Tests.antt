-- ===== src/Agent/Options/Tests.antt =====
-- Concrete command lines.
use sat_os_payload_sdk.Prelude.{
  refl, true, List, [], ◌∷◌, Option, none, some, String, ℤ, pos, str_eq, if◌then◌else◌,
}
use sat_os_payload_sdk.Agent.Options.{Options, defaults, parse_opts, option_of}
use sat_os_payload_sdk.Agent.Options.Checks.{IsComplete, parse_opts-IsComplete}

-- `int` of the texts that the command lines below hold.
abbrev int : String → Option ℤ
int s = if str_eq s "8080" then some (pos 8080) else none

-- A complete command line of the flat-sat mode with UDP.
abbrev command : List (String × String)
command =
    ("-m", "user")
    ∷ ("-i", "10.0.0.1")
    ∷ ("-p", "8080")
    ∷ ("-l", "127.0.0.1")
    ∷ ("-o", "8080")
    ∷ ("-f", "")
    ∷ ("-u", "")
    ∷ []

abbrev settings : Options
settings = record defaults {
  agent_mode = some "user";
  agent_public_ip = some "10.0.0.1";
  agent_public_port = some (pos 8080);
  internal_peer_ip = some "127.0.0.1";
  internal_peer_port = some (pos 8080);
  flat_sat_mode = true;
  udp_mode = true;
}

parse_opts-IsComplete_example : IsComplete settings
unfolding parse_opts option_of
parse_opts-IsComplete_example = parse_opts-IsComplete int (some command) {o = settings} refl
