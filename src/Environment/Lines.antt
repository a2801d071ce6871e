-- ===== src/Environment/Lines.antt =====
-- Reading a line gives back what it was written from, and only known properties are kept.
use sat_os_payload_sdk.Prelude.{
  ◌&&◌, append-nil, ℕ, Bool, true, false, [], ◌∷◌, ◌++◌, Option, none, some, is_some, if◌then◌else◌,
  ◌≡◌, ◌≢◌, refl, arith, All,
}
use sat_os_payload_sdk.Environment.{
  Text, text_eq, split, Dict, lookup, insert, default_values, get_conf, strip, parse_a_conf,
  update_a_conf, sdk_environment_read_config,
}

pub text_eq→eq : (s t : Text) → text_eq s t ≡ true → s ≡ t
text_eq→eq [] [] h = refl
text_eq→eq [] (b ∷ t) h = cc h
text_eq→eq (a ∷ s) [] h = cc h
text_eq→eq (a ∷ s) (b ∷ t) h = ground (arith, text_eq→eq s t)

pub text_eq_refl : (s : Text) → text_eq s s ≡ true
text_eq_refl [] = refl
text_eq_refl (a ∷ s) = ground (arith, text_eq_refl s)

lookup-insert :
    (k j v : Text) (d : Dict)
    → lookup j (insert k v d) ≡ (if text_eq k j then some v else lookup j d)
unfolding lookup insert
lookup-insert k j v [] = refl
lookup-insert k j v ((i, w) ∷ d) =
    ground
      (arith, lookup-insert k j v d, text_eq→eq i k, text_eq→eq i j, text_eq→eq k j, text_eq_refl k)

-- The text does not hold the character.
abbrev pub Lacks : ℕ → Text → Type 0
Lacks sep = All (λ c. c ≢ sep)

split-append :
    (sep : ℕ) (s t : Text)
    → Lacks sep s
    → split sep (s ++ sep ∷ t) ≡ (s, (split sep t).0 ∷ (split sep t).1)
unfolding split
split-append sep [] t h = ground arith
split-append sep (c ∷ s) t h = ground (arith, split-append sep s t h.1, h.0)

split-whole : (sep : ℕ) (s : Text) → Lacks sep s → split sep s ≡ (s, [])
unfolding split
split-whole sep [] h = refl
split-whole sep (c ∷ s) h = ground (arith, split-whole sep s h.1, h.0)

Lacks-append :
    (sep c : ℕ) (s t : Text) → c ≢ sep → Lacks sep s → Lacks sep t → Lacks sep (s ++ c ∷ t)
Lacks-append sep c [] t n h k = (n, k)
Lacks-append sep c (d ∷ s) t n h k = (h.0, Lacks-append sep c s t n h.1 k)

-- What may follow the setting on a line: nothing, or a comment.
abbrev pub ending : Option Text → Text
ending none = []
ending (some comment) = b'#' ∷ comment

split-ending : (s : Text) (e : Option Text) → Lacks b'#' s → (split b'#' (s ++ ending e)).0 ≡ s
split-ending s none h = rw (append-nil, split-whole b'#' s h)
split-ending s (some comment) h = rw (split-append b'#' s comment h)

module _ (is_space : ℕ → Bool) where
  strip-append :
      (c : ℕ) (s t : Text)
      → is_space c ≡ false
      → strip is_space (s ++ c ∷ t) ≡ strip is_space s ++ c ∷ strip is_space t
  unfolding strip
  strip-append c [] t h = ground arith
  strip-append c (d ∷ s) t h = ground (arith, strip-append c s t h)

  -- A line `left=right`, with or without a comment, gives the two sides without their white space,
  -- if neither side holds a '#', and what is left of neither side holds a '='.
  pub parse_a_conf_lem :
      (left right : Text) (e : Option Text)
      → is_space b'=' ≡ false
      → Lacks b'#' left
      → Lacks b'#' right
      → Lacks b'=' (strip is_space left)
      → Lacks b'=' (strip is_space right)
      → parse_a_conf is_space ((left ++ b'=' ∷ right) ++ ending e)
        ≡ (strip is_space left, strip is_space right)
  unfolding parse_a_conf
  parse_a_conf_lem left right e solid hl hr el er = rw (
    split-ending (left ++ b'=' ∷ right) e
        (Lacks-append b'#' b'=' left right (λ q. absurd (omega (arith, q))) hl hr),
    strip-append b'=' left right solid,
    split-append b'=' (strip is_space left) (strip is_space right) el,
    split-whole b'=' (strip is_space right) er,
  )

  -- After a line, a property has the line's value if the line sets that property and it is one that
  -- has a default; else it has the value that it had.
  pub get_conf-update_a_conf :
      (line prop : Text) (values : Dict)
      → let (var, value) = parse_a_conf is_space line in
        get_conf prop (update_a_conf is_space line values) ≡ (
          if is_some (lookup var default_values) && text_eq var prop
          then some value
          else get_conf prop values)
  unfolding get_conf update_a_conf
  get_conf-update_a_conf line prop values =
      let (var, value) = parse_a_conf is_space line in
      ground (arith, lookup-insert var prop value values)

  -- Before any line is read, and if the file cannot be opened, every property has its default.
  pub get_conf-unread :
      (prop : Text)
      → get_conf prop (sdk_environment_read_config is_space none) ≡ lookup prop default_values
  unfolding get_conf sdk_environment_read_config
  get_conf-unread prop = refl
