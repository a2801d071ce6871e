-- ===== src/Generator/Py/Enums.antt =====
-- The reverse dictionary of an enum.
use Prim.Native.String.{◌++◌}
use text.Mathlib.TextLemmas.{append_assoc, append-nil}
use sat_os_payload_sdk.Prelude.{
  true, false, ◌∙◌, ℕ, suc, ◌+◌, ◌-◌, String, ◌≡◌, refl, List, [], ◌∷◌, map, length, arith, ltb,
}
use sat_os_payload_sdk.Generator.Text.{write, Writes, join}
use sat_os_payload_sdk.Generator.Interface.{EnumValue}
use sat_os_payload_sdk.Generator.Py.{reverse_component, reverse_dict}

-- The entries with the closing brace, which comes with the last of them.
abbrev pub dict_text : List String → String
dict_text [] = ""
dict_text (s ∷ l) = join ", " (s ∷ l) ++ "}\n\n"

reverse_dict_from :
    (v : EnumValue) (values : List EnumValue) (n index : ℕ)
    → n ≡ index + length (v ∷ values)
    → Writes (reverse_dict n index (v ∷ values)) (dict_text (map reverse_component (v ∷ values)))
unfolding reverse_dict write
reverse_dict_from v [] n index e = record {
  runs = λ t.
      let last : ltb index (n - 1) ≡ false = ground (arith, e) in
      rw (last, append_assoc t (reverse_component v) "}\n\n") refl;
}
reverse_dict_from v (w ∷ values) n index e =
    let more : ltb index (n - 1) ≡ true = ground (arith, e) in
    let rest = reverse_dict_from w values n (suc index) (omega (arith, e)) in
    let J = join ", " (map reverse_component (w ∷ values)) in
    record {
      runs = λ t. rw more (rest.runs ((t ++ reverse_component v) ++ ", ") ∙ simp append_assoc);
    }

-- What `PyEnum` writes behind the opening brace: the entries, a comma between two of them, and the
-- closing brace; but for an enum without values nothing, so the brace stays open.
pub reverse_dict-Writes :
    (values : List EnumValue)
    → Writes (reverse_dict (length values) 0 values) (dict_text (map reverse_component values))
unfolding reverse_dict
reverse_dict-Writes [] = record { runs = λ t. rw append-nil }
reverse_dict-Writes (v ∷ values) = reverse_dict_from v values (length (v ∷ values)) 0 (omega arith)
