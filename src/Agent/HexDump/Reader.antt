-- ===== src/Agent/HexDump/Reader.antt =====
-- Reading a line of a dump back: its offset, and the bytes between the offset and the bar.
use sat_os_payload_sdk.Prelude.{
  ℕ, zero, suc, ◌+◌, ◌-◌, ◌*◌, ◌/◌, ◌%◌, ◌<◌, ◌≡◌, ◌∙◌, refl, ap, ◌==◌, if◌then◌else◌, List, [],
  ◌∷◌, ◌++◌, append_assoc, append-nil, length, replicate, take, drop, take-append-drop, map, All,
  Option, none, some, Bool, ◌||◌, arith,
}
use sat_os_payload_sdk.Agent.HexDump.{
  Text, space, bar, star, same, cells, padded, printable, row, hex,
}
use sat_os_payload_sdk.Agent.HexDump.Numbers.{
  IsDigit, digit_value, value, value-hex, hex-All, hex-byte, hex_digit-IsDigit,
  digit_value-hex_digit,
}

abbrev pub IsByte : ℕ → Type 0
IsByte b = b < 256

-- The text before the first space, and the rest from that space on.
unfoldable pub cut : Text → Text × Text
cut [] = ([], [])
cut (c ∷ t) = let (word, rest) = cut t in if c == space then ([], c ∷ t) else (c ∷ word, rest)

-- The bytes up to the bar: spaces separate, and any two other characters in a row are digits of
-- one byte, of which `high` is the first.
unfoldable pub bytes : Option ℕ → Text → List ℕ
unfolding digit_value
bytes high [] = []
bytes none (c ∷ t) =
    let rest = bytes (if c == space then none else some (digit_value c)) t in
    if c == bar then [] else rest
bytes (some h) (c ∷ t) = (h * 16 + digit_value c) ∷ bytes none t

bytes-spaces : (n : ℕ) (t : Text) → bytes none (replicate n space ++ t) ≡ bytes none t
unfolding bytes
bytes-spaces zero t = refl
bytes-spaces (suc n) t = bytes-spaces n t

bytes-hex : (x : ℕ) (t : Text) → IsByte x → bytes none (hex 2 x ++ t) ≡ x ∷ bytes none t
unfolding bytes
bytes-hex x t h =
    let high = hex_digit-IsDigit (x / 16) (omega arith) in
    rw (hex-byte x h) (
      ground (
        arith,
        high.not_space,
        high.not_bar,
        digit_value-hex_digit (x / 16) (omega arith),
        digit_value-hex_digit (x % 16) (omega arith),
      ))

bytes-cells :
    (bs : List ℕ) (t : Text) → All IsByte bs → bytes none (cells bs ++ t) ≡ bs ++ bytes none t
bytes-cells [] t h = refl
bytes-cells (x ∷ []) t h = bytes-hex x t h.0
bytes-cells (x ∷ y ∷ bs) t h =
    ap (bytes none) (append_assoc (hex 2 x) (space ∷ cells (y ∷ bs)) t)
    ∙ bytes-hex x (space ∷ cells (y ∷ bs) ++ t) h.0
    ∙ ap (λ (l : List ℕ). x ∷ l) (bytes-spaces 1 _ ∙ bytes-cells (y ∷ bs) t h.1)

bytes-padded :
    (n : ℕ) (bs : List ℕ) (t : Text)
    → All IsByte bs
    → bytes none (padded n (cells bs) ++ t) ≡ bs ++ bytes none t
bytes-padded n bs t h =
    ap (bytes none) (append_assoc (cells bs) _ t)
    ∙ bytes-cells bs (replicate (n - length (cells bs)) space ++ t) h
    ∙ ap (λ (l : List ℕ). bs ++ l) (bytes-spaces (n - length (cells bs)) t)

bytes-block :
    (bs : List ℕ) (t : Text)
    → All IsByte bs
    → bytes none (space ∷ space ∷ (padded 23 (cells bs) ++ t)) ≡ bs ++ bytes none t
bytes-block bs t h = bytes-spaces 2 (padded 23 (cells bs) ++ t) ∙ bytes-padded 23 bs t h

cut-append : (word t : Text) → All IsDigit word → cut (word ++ space ∷ t) ≡ (word, space ∷ t)
unfolding cut
cut-append [] t h = refl
cut-append (c ∷ word) t h = let digit = h.0.not_space in ground (arith, cut-append word t h.1)

cut_lem : (word : Text) → All IsDigit word → cut word ≡ (word, [])
unfolding cut
cut_lem [] h = refl
cut_lem (c ∷ word) h = let digit = h.0.not_space in ground (arith, cut_lem word h.1)

pub All-take : {A : Type 0} (P : A → Type 0) (n : ℕ) (xs : List A) → All P xs → All P (take n xs)
All-take P zero xs h = tt
All-take P (suc n) [] h = tt
All-take P (suc n) (x ∷ xs) h = (h.0, All-take P n xs h.1)

pub All-drop : {A : Type 0} (P : A → Type 0) (n : ℕ) (xs : List A) → All P xs → All P (drop n xs)
All-drop P zero xs h = h
All-drop P (suc n) [] h = tt
All-drop P (suc n) (x ∷ xs) h = All-drop P n xs h.1

-- The offset at the head of a line, and the bytes behind it.
abbrev pub offset_of : Text → ℕ
offset_of line = value 0 (cut line).0

abbrev pub bytes_of : Text → List ℕ
bytes_of line = bytes none (cut line).1

pub offset_of-row : (offset : ℕ) (bs : List ℕ) → offset_of (row offset bs) ≡ offset
unfolding row
offset_of-row offset bs = rw (cut-append (hex 8 offset) _ (hex-All 8 offset)) (value-hex 8 offset)

pub offset_of-hex : (offset : ℕ) → offset_of (hex 8 offset) ≡ offset
offset_of-hex offset = rw (cut_lem (hex 8 offset) (hex-All 8 offset)) (value-hex 8 offset)

pub bytes_of-row : (offset : ℕ) (bs : List ℕ) → All IsByte bs → bytes_of (row offset bs) ≡ bs
unfolding row bytes
bytes_of-row offset bs h =
    let shown : Text = space ∷ space ∷ bar ∷ (padded 16 (map printable bs) ++ bar ∷ []) in
    let right : Text = space ∷ space ∷ (padded 23 (cells (drop 8 bs)) ++ shown) in
    rw (cut-append (hex 8 offset) _ (hex-All 8 offset)) (
      bytes-block (take 8 bs) right (All-take IsByte 8 bs h)
      ∙ ap (λ (l : List ℕ). take 8 bs ++ l)
          (bytes-block (drop 8 bs) shown (All-drop IsByte 8 bs h) ∙ append-nil (drop 8 bs))
      ∙ take-append-drop 8 bs)

abbrev pub copies : ℕ → List ℕ → List ℕ
copies zero l = []
copies (suc n) l = l ++ copies n l

abbrev pub fill : ℕ → ℕ → List ℕ → List ℕ → Bool → List ℕ
fill base offset out last starred =
    if starred then out ++ copies ((offset - base - length out) / 16) last else out

-- The lines of a dump that starts at `base`, read one by one: `out` are the bytes so far, `last`
-- those of the latest row, and `starred` tells of a "*" behind it, which stands for as many copies
-- of that row as the next offset leaves room for. The last line has an offset only. An offset that
-- does not fit is an error.
unfoldable pub undump : ℕ → List Text → List ℕ → List ℕ → Bool → Option (List ℕ)
unfolding cut value bytes
undump base [] out last starred = none
undump base (line ∷ []) out last starred =
    let filled = fill base (offset_of line) out last starred in
    if offset_of line == base + length filled then some filled else none
undump base (line ∷ next ∷ lines) out last starred =
    let repeats = same line star in
    let filled = fill base (offset_of line) out last starred in
    let rest =
      undump base (next ∷ lines) (if repeats then out else filled ++ bytes_of line)
        (if repeats then last else bytes_of line) repeats in
    if repeats || offset_of line == base + length filled then rest else none
