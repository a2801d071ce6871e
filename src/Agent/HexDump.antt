-- ===== src/Agent/HexDump.antt =====
-- lib/proxy/proxy-agent/hexdump.py: the dump of a buffer that the agent logs. A text is the list of
-- its code points.
pub mod Numbers
pub mod Reader
pub mod Lines
pub mod RoundTrip
pub mod Whole
mod Tests
use sat_os_payload_sdk.Prelude.{
  ℕ, zero, suc, ◌+◌, ◌-◌, ◌/◌, ◌%◌, Bool, not, ◌&&◌, ◌||◌, ◌==◌, ltb, leb, if◌then◌else◌, List, [],
  ◌∷◌, ◌++◌, map, length, take, drop, replicate, Option, none, some, false,
}

abbrev pub Text : Type 0
Text = List ℕ

abbrev pub space : ℕ
space = 32

abbrev pub bar : ℕ
bar = b'|'

-- "*"
abbrev pub star : Text
star = b'*' ∷ []

-- A digit of `{:x}`, and the digits of a number, the highest first; the fuel is more than `n`.
unfoldable pub hex_digit : ℕ → ℕ
hex_digit d = if ltb d 10 then b'0' + d else 87 + d

unfoldable pub hex_digits : ℕ → ℕ → Text
unfolding hex_digit
hex_digits zero n = []
hex_digits (suc fuel) n =
    let high = hex_digits fuel (n / 16) in
    if ltb n 16 then hex_digit n ∷ [] else high ++ hex_digit (n % 16) ∷ []

-- `{:0<width>x}`
unfoldable pub hex : ℕ → ℕ → Text
unfolding hex_digits
hex width n = let digits = hex_digits (suc n) n in replicate (width - length digits) b'0' ++ digits

-- `{:<width>}` of a text.
abbrev pub padded : ℕ → Text → Text
padded width t = t ++ replicate (width - length t) space

-- `" ".join(cells)`
abbrev pub spaced : List Text → Text
spaced [] = []
spaced (t ∷ []) = t
spaced (t ∷ u ∷ l) = t ++ space ∷ spaced (u ∷ l)

abbrev pub cells : List ℕ → Text
cells bs = spaced (map (hex 2) bs)

abbrev pub printable : ℕ → ℕ
printable x = if leb 32 x && ltb x 127 then x else b'.'

-- The line of the row `bs` at `offset`.
unfoldable pub row : ℕ → List ℕ → Text
row offset bs =
    let left = padded 23 (cells (take 8 bs)) in
    let right = padded 23 (cells (drop 8 bs)) in
    let shown = padded 16 (map printable bs) in
    hex 8 offset
    ++ (space
        ∷ space
        ∷ (left ++ (space ∷ space ∷ (right ++ (space ∷ space ∷ bar ∷ (shown ++ bar ∷ []))))))

-- `==` of texts and of byte strings, and of one with a variable that may be None.
abbrev pub same : List ℕ → List ℕ → Bool
same [] [] = Bool.true
same (x ∷ xs) (y ∷ ys) = x == y && same xs ys
same _ _ = false

abbrev pub is : Option (List ℕ) → List ℕ → Bool
is none t = false
is (some s) t = same s t

-- The loop of `__iter__` from index `i` on, where `rest` is `buf[i:]`; each round takes a byte at
-- least, so `length rest` rounds are enough.
unfoldable pub rows : ℕ → ℕ → ℕ → List ℕ → Option (List ℕ) → Option Text → List Text
rows off fuel i [] last_bs last_line = []
rows off zero i (x ∷ xs) last_bs last_line = []
rows off (suc fuel) i (x ∷ xs) last_bs last_line =
    let bs = take 16 (x ∷ xs) in
    let line = if is last_bs bs then star else row (off + i) bs in
    let rest = rows off fuel (i + 16) (drop 16 (x ∷ xs)) (some bs) (some line) in
    if not (is last_bs bs) || not (is last_line line) then line ∷ rest else rest

-- `"\n".join(lines)`
abbrev pub joined : List Text → Text
joined [] = []
joined (l ∷ []) = l
joined (l ∷ m ∷ ls) = l ++ b'\n' ∷ joined (m ∷ ls)

-- `list(hexdump(buf, off))`
unfoldable pub hexdump : List ℕ → ℕ → List Text
unfolding rows
hexdump buf off = rows off (length buf) 0 buf none none ++ hex 8 (off + length buf) ∷ []

-- `str(hexdump(buf, off))`
unfoldable pub dump_text : List ℕ → ℕ → Text
unfolding hexdump
dump_text buf off = joined (hexdump buf off)
