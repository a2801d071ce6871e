-- ===== src/Types/ReturnCode.antt =====
-- `class AntarisReturnCode`: the codes by their names, and the names by their codes.
use sat_os_payload_sdk.Prelude.{
  String, List, [], ◌∷◌, Option, none, some, ◌≡◌, refl, ℕ, suc, ◌+◌, ℤ, pos, negsuc, ◌==ℤ◌,
  if◌then◌else◌, arith,
}

pub data ReturnCode : Type 0 where
  an_success an_generic_failure an_not_implemented an_out_of_resources an_not_permitted : ReturnCode
  an_invalid_params an_incompatible_version : ReturnCode

abbrev pub value : ReturnCode → ℤ
value an_success = pos 0
value an_generic_failure = negsuc 0
value an_not_implemented = negsuc 1
value an_out_of_resources = negsuc 2
value an_not_permitted = negsuc 3
value an_invalid_params = negsuc 4
value an_incompatible_version = negsuc 5

abbrev pub name : ReturnCode → String
name an_success = "An_SUCCESS"
name an_generic_failure = "An_GENERIC_FAILURE"
name an_not_implemented = "An_NOT_IMPLEMENTED"
name an_out_of_resources = "An_OUT_OF_RESOURCES"
name an_not_permitted = "An_NOT_PERMITTED"
name an_invalid_params = "An_INVALID_PARAMS"
name an_incompatible_version = "An_INCOMPATIBLE_VERSION"

abbrev pub reverse_dict : List (ℤ × String)
reverse_dict =
    (pos 0, "An_SUCCESS")
    ∷ (negsuc 0, "An_GENERIC_FAILURE")
    ∷ (negsuc 1, "An_NOT_IMPLEMENTED")
    ∷ (negsuc 2, "An_OUT_OF_RESOURCES")
    ∷ (negsuc 3, "An_NOT_PERMITTED")
    ∷ (negsuc 4, "An_INVALID_PARAMS")
    ∷ (negsuc 5, "An_INCOMPATIBLE_VERSION")
    ∷ []

-- `d[z]`, with none for a KeyError.
pub lookup : ℤ → List (ℤ × String) → Option String
lookup z [] = none
lookup z ((key, s) ∷ d) = if key ==ℤ z then some s else lookup z d

-- Each code finds its own name.
pub lookup-value : (c : ReturnCode) → lookup (value c) reverse_dict ≡ some (name c)
unfolding lookup
lookup-value an_success = refl
lookup-value an_generic_failure = refl
lookup-value an_not_implemented = refl
lookup-value an_out_of_resources = refl
lookup-value an_not_permitted = refl
lookup-value an_invalid_params = refl
lookup-value an_incompatible_version = refl

-- No other number finds any.
pub lookup_unknown :
    (n : ℕ)
    → (lookup (pos (suc n)) reverse_dict ≡ none) × (lookup (negsuc (n + 6)) reverse_dict ≡ none)
unfolding lookup
lookup_unknown n = ground arith
