-- ===== src/Generator/Interface/Paths.antt =====
-- The names of files, as parser_interface.py takes them from paths.
pub mod Names
use Prim.Native.Char.{code}
use sat_os_payload_sdk.Prelude.{
  ◌==◌, ℕ, String, Bool, true, false, Option, none, some, if◌then◌else◌,
}

-- The part of a text before the last character with a code, and the part behind it.
abbrev pub before_last : ℕ → String → Option String
before_last sep String.[] = none
before_last sep (String.◌∷◌ c s) = elim (before_last sep s) [
  | some r ↦ some (String.◌∷◌ c r)
  | none ↦ if code c == sep then some "" else none
]

abbrev pub after_last : ℕ → String → Option String
after_last sep String.[] = none
after_last sep (String.◌∷◌ c s) = elim (after_last sep s) [
  | some r ↦ some r
  | none ↦ if code c == sep then some s else none
]

abbrev pub all_dots : String → Bool
all_dots String.[] = true
all_dots (String.◌∷◌ c s) = if code c == 46 then all_dots s else false

-- `get_file_basename_with_extension`: `os.path.basename`
unfoldable pub basename : String → String
basename path = elim (after_last 47 path) [ none ↦ path | some s ↦ s ]

-- `os.path.splitext(name)[0]` of a name without a slash; leading dots start no extension.
unfoldable pub splitext_root : String → String
splitext_root name = elim (before_last 46 name) [
  | none ↦ name
  | some root ↦ if all_dots root then name else root
]

unfoldable pub get_file_basename_without_extension : String → String
unfolding basename splitext_root
get_file_basename_without_extension filename = splitext_root (basename filename)
