-- ===== src/Environment.antt =====
-- lib/python/satos_payload_sdk/antaris_sdk_environment.py: the settings of the SDK, from a file of
-- `PROPERTY=value` lines over built-in defaults. A text is the list of its characters; which
-- characters the pattern `[\n\t\s]` matches is a parameter.
pub mod Lines
pub mod Common
mod Tests
use sat_os_payload_sdk.Prelude.{
  ℕ, String, Bool, true, false, not, List, [], ◌∷◌, ◌++◌, Option, none, some, ◌==◌, is_some,
  if◌then◌else◌,
}
use Prim.Native.Char.{code}

abbrev pub Text : Type 0
Text = List ℕ

abbrev pub chars : String → Text
chars String.[] = []
chars (String.◌∷◌ c s) = code c ∷ chars s

abbrev pub text_eq : Text → Text → Bool
text_eq [] [] = true
text_eq [] (b ∷ t) = false
text_eq (a ∷ s) [] = false
text_eq (a ∷ s) (b ∷ t) = if a == b then text_eq s t else false

-- `text.split(sep)` for a separator of one character: the first piece, and the pieces behind it.
pub split : ℕ → Text → Text × List Text
split sep [] = ([], [])
split sep (c ∷ t) =
    let (piece, more) = split sep t in if c == sep then ([], piece ∷ more) else (c ∷ piece, more)

abbrev pub Dict : Type 0
Dict = List (Text × Text)

pub lookup : Text → Dict → Option Text
lookup k [] = none
lookup k ((j, v) ∷ d) = if text_eq j k then some v else lookup k d

-- `d[k] = v`
pub insert : Text → Text → Dict → Dict
insert k v [] = (k, v) ∷ []
insert k v ((j, w) ∷ d) = if text_eq j k then (j, v) ∷ d else (j, w) ∷ insert k v d

-- `g_default_values`
unfoldable pub default_values : Dict
default_values =
    (chars "PAYLOAD_CONTROLLER_IP", chars "127.0.0.1")
    ∷ (chars "SSL_FLAG", chars "1")
    ∷ (chars "KEEPALIVE", chars "1")
    ∷ (chars "PAYLOAD_APP_IP", chars "127.0.0.1")
    ∷ (chars "LISTEN_IP", chars "0.0.0.0")
    ∷ (chars "PC_API_PORT", chars "50051")
    ∷ (chars "APP_API_PORT", chars "50053")
    ∷ []

-- `get_conf(prop_name)`, over `g_values_from_conf_file`
pub get_conf : Text → Dict → Option Text
unfolding lookup
get_conf prop values = elim (lookup prop values) [
  | some v ↦ some v
  | none ↦ lookup prop default_values
]

-- `determine_conf_file`: the environment's variable, if it is set.
pub determine_conf_file : Option Text → Text
determine_conf_file none = chars "/opt/antaris/app/conf/sdk_env.conf"
determine_conf_file (some path) = path

module _ (is_space : ℕ → Bool) where
  -- `re.sub(r"[\n\t\s]*", "", text)`
  pub strip : Text → Text
  strip [] = []
  strip (c ∷ t) = if is_space c then strip t else c ∷ strip t

  -- A line with other than two pieces gives the property "" and the value "".
  abbrev pair_of : Text × List Text → Text × Text
  pair_of (var, value ∷ []) = (var, value)
  pair_of _ = ([], [])

  pub parse_a_conf : Text → Text × Text
  unfolding split strip
  parse_a_conf line = pair_of (split b'=' (strip (split b'#' line).0))

  pub update_a_conf : Text → Dict → Dict
  unfolding parse_a_conf lookup insert
  update_a_conf line values =
      let (prop, value) = parse_a_conf line in
      if is_some (lookup prop default_values) then insert prop value values else values

  -- The loop stops at the first read that gives "", which is the end of the file.
  pub read_lines : List Text → Dict → Dict
  unfolding update_a_conf
  read_lines [] values = values
  read_lines ([] ∷ lines) values = values
  read_lines (line ∷ lines) values = read_lines lines (update_a_conf line values)

  -- `none` is a file that cannot be opened.
  pub sdk_environment_read_config : Option (List Text) → Dict
  unfolding read_lines
  sdk_environment_read_config none = []
  sdk_environment_read_config (some lines) = read_lines lines []
