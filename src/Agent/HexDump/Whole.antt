-- ===== src/Agent/HexDump/Whole.antt =====
-- The dump as one text, taken apart into its lines.
use sat_os_payload_sdk.Prelude.{
  ℕ, zero, suc, ◌+◌, ◌≡◌, ◌≢◌, ◌∙◌, refl, ap, ◌==◌, if◌then◌else◌, List, [], ◌∷◌, ◌++◌, map, length,
  take, drop, replicate, All, All-append, Option, none, some, false, not, ◌||◌, if-holds, arith,
}
use sat_os_payload_sdk.Agent.HexDump.{
  Text, space, bar, star, cells, padded, printable, is, row, rows, hex, hexdump, joined, dump_text,
}
use sat_os_payload_sdk.Agent.HexDump.Numbers.{IsDigit, hex-All}
use sat_os_payload_sdk.Agent.HexDump.Reader.{IsByte, undump}
use sat_os_payload_sdk.Agent.HexDump.RoundTrip.{undump-hexdump}

abbrev prepend : ℕ → List Text → List Text
prepend c [] = (c ∷ []) ∷ []
prepend c (l ∷ ls) = (c ∷ l) ∷ ls

-- The lines between the line feeds.
unfoldable pub split_lines : Text → List Text
split_lines [] = [] ∷ []
split_lines (c ∷ t) = let rest = split_lines t in if c == 10 then [] ∷ rest else prepend c rest

abbrev NoBreak : Text → Type 0
NoBreak = All (λ c. c ≢ 10)

split_lines-append : (l t : Text) → NoBreak l → split_lines (l ++ 10 ∷ t) ≡ l ∷ split_lines t
unfolding split_lines
split_lines-append [] t h = refl
split_lines-append (c ∷ l) t h =
    let other : (c == 10) ≡ false = let ne = h.0 in ground arith in
    rw (other, split_lines-append l t h.1) refl

split_lines_lem : (l : Text) → NoBreak l → split_lines l ≡ l ∷ []
unfolding split_lines
split_lines_lem [] h = refl
split_lines_lem (c ∷ l) h =
    let other : (c == 10) ≡ false = let ne = h.0 in ground arith in
    rw (other, split_lines_lem l h.1) refl

split_lines-joined :
    (l : Text) (ls : List Text) → All NoBreak (l ∷ ls) → split_lines (joined (l ∷ ls)) ≡ l ∷ ls
split_lines-joined l [] h = split_lines_lem l h.0
split_lines-joined l (m ∷ ls) h =
    split_lines-append l (joined (m ∷ ls)) h.0
    ∙ ap (λ (t : List Text). l ∷ t) (split_lines-joined m ls h.1)

digits-NoBreak : (t : Text) → All IsDigit t → NoBreak t
digits-NoBreak [] h = tt
digits-NoBreak (c ∷ t) h = (h.0.not_break, digits-NoBreak t h.1)

space_no_break : space ≢ 10
space_no_break = λ e. absurd (omega (arith, e))

bar_no_break : bar ≢ 10
bar_no_break = λ e. absurd (omega (arith, e))

append-NoBreak : (s t : Text) → NoBreak s → NoBreak t → NoBreak (s ++ t)
append-NoBreak s t = All-append (λ c. c ≢ 10) s t

padding-NoBreak : (n : ℕ) → NoBreak (replicate n space)
padding-NoBreak zero = tt
padding-NoBreak (suc n) = (space_no_break, padding-NoBreak n)

padded-NoBreak : (n : ℕ) (t : Text) → NoBreak t → NoBreak (padded n t)
padded-NoBreak n t h = append-NoBreak t _ h (padding-NoBreak _)

cells-NoBreak : (bs : List ℕ) → NoBreak (cells bs)
cells-NoBreak [] = tt
cells-NoBreak (x ∷ []) = digits-NoBreak (hex 2 x) (hex-All 2 x)
cells-NoBreak (x ∷ y ∷ bs) =
    append-NoBreak (hex 2 x) _ (digits-NoBreak (hex 2 x) (hex-All 2 x))
      (space_no_break, cells-NoBreak (y ∷ bs))

shown-NoBreak : (bs : List ℕ) → NoBreak (map printable bs)
shown-NoBreak [] = tt
shown-NoBreak (x ∷ bs) = (λ e. ground arith, shown-NoBreak bs)

row-NoBreak : (offset : ℕ) (bs : List ℕ) → NoBreak (row offset bs)
unfolding row
row-NoBreak offset bs =
    let left = padded 23 (cells (take 8 bs)) in
    let right = padded 23 (cells (drop 8 bs)) in
    append-NoBreak (hex 8 offset) _ (digits-NoBreak (hex 8 offset) (hex-All 8 offset)) (
      space_no_break,
      (
        space_no_break,
        append-NoBreak left _ (padded-NoBreak 23 _ (cells-NoBreak (take 8 bs))) (
          space_no_break,
          (
            space_no_break,
            append-NoBreak right _ (padded-NoBreak 23 _ (cells-NoBreak (drop 8 bs))) (
              space_no_break,
              (
                space_no_break,
                (
                  bar_no_break,
                  append-NoBreak (padded 16 (map printable bs)) _
                      (padded-NoBreak 16 _ (shown-NoBreak bs)) (bar_no_break, tt),
                ),
              ),
            ),
          ),
        ),
      ),
    )

rows-NoBreak :
    (off fuel i : ℕ) (rest : List ℕ) (last_bs : Option (List ℕ)) (last_line : Option Text)
    → All NoBreak (rows off fuel i rest last_bs last_line)
unfolding rows
rows-NoBreak off fuel i [] last_bs last_line = tt
rows-NoBreak off zero i (x ∷ xs) last_bs last_line = tt
rows-NoBreak off (suc fuel) i (x ∷ xs) last_bs last_line =
    let bs = take 16 (x ∷ xs) in
    let line = if is last_bs bs then star else row (off + i) bs in
    let whole : NoBreak line =
      if-holds NoBreak (is last_bs bs) ((λ e. absurd (omega (arith, e))), tt)
        (row-NoBreak (off + i) bs) in
    let rest = rows-NoBreak off fuel (i + 16) (drop 16 (x ∷ xs)) (some bs) (some line) in
    if-holds (All NoBreak) (not (is last_bs bs) || not (is last_line line)) (whole, rest) rest

split_lines-append_last :
    (ls : List Text) (end : Text)
    → All NoBreak ls
    → NoBreak end
    → split_lines (joined (ls ++ end ∷ [])) ≡ ls ++ end ∷ []
split_lines-append_last [] end h last = split_lines_lem end last
split_lines-append_last (l ∷ ls) end h last =
    split_lines-joined l (ls ++ end ∷ []) (h.0, All-append NoBreak ls (end ∷ []) h.1 (last, tt))

-- The text of a dump is read back to the buffer that it shows, for every buffer of bytes and every
-- starting offset: taken apart at its line feeds, each row carries its bytes in order and the offset
-- where they stand, and the rows that a "*" replaces are copies of the row before it, as many as the
-- next offset says.
pub undump-dump_text :
    (buf : List ℕ) (off : ℕ)
    → All IsByte buf
    → undump off (split_lines (dump_text buf off)) [] [] false ≡ some buf
unfolding dump_text hexdump
undump-dump_text buf off h =
    let lines = rows off (length buf) 0 buf none none in
    let end = hex 8 (off + length buf) in
    rw
      (split_lines-append_last lines end (rows-NoBreak off (length buf) 0 buf none none)
        (digits-NoBreak end (hex-All 8 (off + length buf))))
      (unfold hexdump in undump-hexdump buf off h)
