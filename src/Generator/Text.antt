-- ===== src/Generator/Text.antt =====
-- Text as the generators write it: `targetFile.write`, `str.format` of a field that may be None, and
-- lists of pieces with a separator.
use Prim.Native.String.{◌++◌, count}
use Prim.Native.Char.{Char, code}
use text.Mathlib.Text.{starts_with}
use text.Mathlib.TextLemmas.{append_assoc, append-nil}
use sat_os_payload_sdk.Prelude.{
  ◌==◌, ◌||◌, ℕ, zero, suc, ◌-◌, String, ◌≡◌, refl, List, [], ◌∷◌, map, Option, none, some, Bool,
  true, false, str_eq, if◌then◌else◌,
}
use sat_os_payload_sdk.Exec.{ok, raised, type_error, Exec, ◌>>=◌}

-- A run that writes to an open file, whose text so far is the state.
abbrev pub Writer : Type 0
Writer = Exec String (Unit {0})

unfoldable pub write : String → Writer
write s t = (ok tt, t ++ s)

-- `"{}".format(x)`
abbrev pub show : Option String → String
show none = "None"
show (some s) = s

abbrev spaces : ℕ → String
spaces zero = ""
spaces (suc n) = " " ++ spaces n

-- `"{:<n}".format(x)`: None has no such format.
unfoldable pub padded : ℕ → Option String → Exec String String
padded n none t = (raised type_error, t)
padded n (some s) t = (ok (s ++ spaces (n - count s)), t)

-- `for a in l: f(a)`
unfoldable pub for_each : {A : Type 0} → (A → Writer) → List A → Writer
for_each f [] t = (ok tt, t)
for_each f (a ∷ l) t = (f a >>= λ _. for_each f l) t

abbrev pub is_in : String → List String → Bool
is_in s [] = false
is_in s (t ∷ l) = if str_eq t s then true else is_in s l

abbrev pub filter : {A : Type 0} → (A → Bool) → List A → List A
filter p [] = []
filter p (a ∷ l) = let rest = filter p l in if p a then a ∷ rest else rest

-- The pieces in order, and with a separator between them.
abbrev pub concat : List String → String
concat [] = ""
concat (s ∷ l) = s ++ concat l

abbrev pub join : String → List String → String
join sep [] = ""
join sep (s ∷ []) = s
join sep (s ∷ t ∷ l) = s ++ sep ++ join sep (t ∷ l)

-- `s.endswith(t)`
abbrev pub ends_with : String → String → Bool
ends_with String.[] t = str_eq "" t
ends_with (String.◌∷◌ c s) t = str_eq (String.◌∷◌ c s) t || ends_with s t

-- `s.replace(old, new)` for an `old` that is not empty: the scan passes over the rest of an occurrence.
replace_from : String → String → ℕ → String → String
replace_from old new skip String.[] = ""
replace_from old new (suc skip) (String.◌∷◌ c s) = replace_from old new skip s
replace_from old new zero (String.◌∷◌ c s) =
    let hit = starts_with (String.◌∷◌ c s) old in
    let rest = replace_from old new (if hit then count old - 1 else 0) s in
    if hit then new ++ rest else String.◌∷◌ c rest

unfoldable pub replace : String → String → String → String
unfolding replace_from
replace s old new = replace_from old new 0 s

abbrev counterpart : String → String → Char → Char
counterpart (String.◌∷◌ a from) (String.◌∷◌ b into) c =
    let rest = counterpart from into c in if code a == code c then b else rest
counterpart _ _ c = c

abbrev with_each : (Char → Char) → String → String
with_each f String.[] = ""
with_each f (String.◌∷◌ c s) = String.◌∷◌ (f c) (with_each f s)

abbrev capitals : String
capitals = "ABCDEFGHIJKLMNOPQRSTUVWXYZ"

abbrev smalls : String
smalls = "abcdefghijklmnopqrstuvwxyz"

-- `c.upper()`, `s.upper()` and `s.lower()` of texts in ASCII.
abbrev pub upper_char : Char → Char
upper_char c = counterpart smalls capitals c

abbrev pub upper : String → String
upper s = with_each upper_char s

abbrev pub lower : String → String
lower s = with_each (counterpart capitals smalls) s

-- `s.split(" ")[0]`
abbrev pub first_word : String → String
first_word String.[] = ""
first_word (String.◌∷◌ c s) =
    let rest = first_word s in if code c == 32 then "" else String.◌∷◌ c rest

-- The run writes this text and ends without an exception.
pub record Writes (m : Writer) (s : String) : Type 0 where
  pub runs : (t : String) → m t ≡ (ok tt, t ++ s)

pub write-Writes : {s : String} → Writes (write s) s
unfolding write
write-Writes = record { runs = λ t. refl }

pub then-Writes :
    {m k : Writer} {s u : String} → Writes m s → Writes k u → Writes (m >>= λ _. k) (s ++ u)
then-Writes {s = s} {u = u} hm hk = record {
  runs = λ t. rw (hm.runs t, hk.runs (t ++ s), append_assoc t s u);
}

pub for_each-Writes :
    {A : Type 0} (f : A → Writer) (g : A → String)
    → ((a : A) → Writes (f a) (g a))
    → (l : List A) → Writes (for_each f l) (concat (map g l))
unfolding for_each
for_each-Writes f g h [] = record { runs = λ t. rw append-nil }
for_each-Writes f g h (a ∷ l) = then-Writes (h a) (for_each-Writes f g h l)
