-- ===== src/Environment/Tests.antt =====
-- Concrete settings.
use sat_os_payload_sdk.Prelude.{ℕ, ◌≡◌, refl, Bool, ◌||◌, ◌==◌, [], ◌∷◌, ◌++◌, some, arith}
use sat_os_payload_sdk.Environment.{
  determine_conf_file, sdk_environment_read_config, chars, get_conf, strip, parse_a_conf,
  default_values,
}
use sat_os_payload_sdk.Environment.Lines.{ending, parse_a_conf_lem}

abbrev is_space : ℕ → Bool
is_space c = (c == 32) || (c == 10)

parse_a_conf_lem_example :
    parse_a_conf is_space
      ((chars "KEEPALIVE " ++ b'=' ∷ chars " 0 ") ++ ending (some (chars " off")))
    ≡ (chars "KEEPALIVE", chars "0")
unfolding strip
parse_a_conf_lem_example =
    parse_a_conf_lem is_space (chars "KEEPALIVE ") (chars " 0 ") (some (chars " off")) refl
      (ground arith) (ground arith) (ground arith) (ground arith)

conf_file_of_variable : determine_conf_file (some (chars "/tmp/env")) ≡ chars "/tmp/env"
unfolding determine_conf_file
conf_file_of_variable = refl

-- A line of an unknown property is passed over, and the last line of a property counts.
file_read :
    get_conf (chars "KEEPALIVE") (
      sdk_environment_read_config is_space
        (some (chars "OTHER=1" ∷ chars "KEEPALIVE=1" ∷ chars "KEEPALIVE=0" ∷ [])))
    ≡ some (chars "0")
unfolding get_conf sdk_environment_read_config default_values
file_read = refl
