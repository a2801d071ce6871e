-- ===== src/Generator/Interface/Paths/Names.antt =====
-- The base name of a file.
use Prim.Native.String.{◌++◌}
use Prim.Native.Char.{code, Char}
use text.Mathlib.TextLemmas.{cons-append, nil-append}
use sat_os_payload_sdk.Prelude.{ap, ◌∙◌, ℕ, ◌==◌, String, false, ◌≡◌, ◌≢◌, refl, none, some, arith}
use sat_os_payload_sdk.Generator.Interface.Paths.{
  before_last, after_last, all_dots, basename, splitext_root, get_file_basename_without_extension,
}

-- No character of the text has the code.
abbrev pub Without : ℕ → String → Type 0
Without sep String.[] = Unit
Without sep (String.◌∷◌ c s) = (code c ≢ sep) × Without sep s

after_last-none : (sep : ℕ) (s : String) → Without sep s → after_last sep s ≡ none
after_last-none sep String.[] w = refl
after_last-none sep (String.◌∷◌ c s) w =
    let rest = after_last-none sep s w.1 in
    let other : code c == sep ≡ false = ground (arith, w) in rw (rest, other) refl

before_last-none : (sep : ℕ) (s : String) → Without sep s → before_last sep s ≡ none
before_last-none sep String.[] w = refl
before_last-none sep (String.◌∷◌ c s) w =
    let rest = before_last-none sep s w.1 in
    let other : code c == sep ≡ false = ground (arith, w) in rw (rest, other) refl

after_last-cons :
    (sep : ℕ) (c : Char) (s : String) {r : String}
    → after_last sep s ≡ some r
    → after_last sep (String.◌∷◌ c s) ≡ some r
after_last-cons sep c s h = rw h

before_last-cons :
    (sep : ℕ) (c : Char) (s : String) {r : String}
    → before_last sep s ≡ some r
    → before_last sep (String.◌∷◌ c s) ≡ some (String.◌∷◌ c r)
before_last-cons sep c s h = rw h

after_slash : (s : String) → "/" ++ s ≡ String.◌∷◌ "/" s
after_slash s = rw (cons-append "/" "" s, nil-append s)

after_dot : (s : String) → "." ++ s ≡ String.◌∷◌ "." s
after_dot s = rw (cons-append "." "" s, nil-append s)

after_last-slash : (dir s : String) → Without 47 s → after_last 47 (dir ++ "/" ++ s) ≡ some s
after_last-slash String.[] s w =
    rw (nil-append ("/" ++ s), after_slash s, after_last-none 47 s w) refl
after_last-slash (String.◌∷◌ c dir) s w =
    rw (cons-append c dir ("/" ++ s))
      (after_last-cons 47 c (dir ++ "/" ++ s) (after_last-slash dir s w))

before_last-dot :
    (name ext : String) → Without 46 ext → before_last 46 (name ++ "." ++ ext) ≡ some name
before_last-dot String.[] ext w =
    rw (nil-append ("." ++ ext), after_dot ext, before_last-none 46 ext w) refl
before_last-dot (String.◌∷◌ c name) ext w =
    rw (cons-append c name ("." ++ ext))
      (before_last-cons 46 c (name ++ "." ++ ext) (before_last-dot name ext w))

Without-append : (sep : ℕ) (s t : String) → Without sep s → Without sep t → Without sep (s ++ t)
Without-append sep String.[] t hs ht = rw (nil-append t) ht
Without-append sep (String.◌∷◌ c s) t hs ht =
    rw (cons-append c s t) (hs.0, Without-append sep s t hs.1 ht)

basename-some : (path s : String) → after_last 47 path ≡ some s → basename path ≡ s
unfolding basename
basename-some path s h = rw (basename, h)

splitext_root-some :
    (name root : String)
    → before_last 46 name ≡ some root
    → all_dots root ≡ false
    → splitext_root name ≡ root
unfolding splitext_root
splitext_root-some name root h dots = rw (splitext_root, h, dots)

-- The base name of a path is the last part without its extension: the directory before the last slash
-- is dropped and so is the part from the last dot on, if the name has another character than dots
-- before it.
pub get_file_basename_without_extension-append :
    (dir name ext : String)
    → Without 47 name
    → all_dots name ≡ false
    → Without 47 ext
    → Without 46 ext
    → get_file_basename_without_extension (dir ++ "/" ++ name ++ "." ++ ext) ≡ name
unfolding get_file_basename_without_extension
get_file_basename_without_extension-append dir name ext wn dots we we' =
    let w =
      Without-append 47 name ("." ++ ext) wn (rw (after_dot ext) ((λ e. ground (arith, e)), we)) in
    ap splitext_root (
      basename-some (dir ++ "/" ++ name ++ "." ++ ext) (name ++ "." ++ ext)
        (after_last-slash dir (name ++ "." ++ ext) w))
    ∙ splitext_root-some (name ++ "." ++ ext) name (before_last-dot name ext we') dots
