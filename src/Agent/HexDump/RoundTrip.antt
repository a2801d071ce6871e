-- ===== src/Agent/HexDump/RoundTrip.antt =====
-- The dump of a buffer, read back.
use sat_os_payload_sdk.Prelude.{
  ℕ, zero, suc, ◌+◌, ◌*◌, ◌≤◌, ◌≡◌, ◌∙◌, refl, sym, ap, if◌then◌else◌, List, [], ◌∷◌, ◌++◌,
  append_assoc, append-nil, length, length-append, replicate, take, drop, take-append-drop,
  length-take, length-drop, All, some, false, true, Bool, ◌⊎◌, inl, inr, Bool-cases, not, arith,
}
use sat_os_payload_sdk.Agent.HexDump.{Text, star, same, row, rows, hex, hexdump}
use sat_os_payload_sdk.Agent.HexDump.Reader.{undump, IsByte, copies, All-drop, All-take}
use sat_os_payload_sdk.Agent.HexDump.Lines.{
  same_iff, row_not_star, copies_last, length-fill, undump_step, undump-row, undump_end,
}

chunk_cases : (n : ℕ) (xs : List ℕ) → (length (take n xs) ≡ n) ⊎ (drop n xs ≡ [])
chunk_cases zero xs = inl refl
chunk_cases (suc n) [] = inr refl
chunk_cases (suc n) (x ∷ xs) = ground (arith, chunk_cases n xs)

length-chunk : (n : ℕ) (xs : List ℕ) → length (take n xs) + length (drop n xs) ≡ length xs
length-chunk n xs = omega (arith, length-take n xs, length-drop n xs)

-- The loop at index `i` of a buffer of `total` bytes, with `rest` to come, and a reader that has
-- `out` and lacks `k` copies of the last row `prev`.
record IsAt (i total k : ℕ) (rest prev out : List ℕ) (starred : Bool) : Type 0 where
  here : (rest ≡ []) ⊎ (i ≡ length out + 16 * k)
  ends : total ≡ length out + 16 * k + length rest
  unstarred : starred ≡ false → k ≡ 0
  full : (length prev ≡ 16) ⊎ ((rest ≡ []) × (k ≡ 0))
  small : All IsByte rest

module _ (i total k x : ℕ) (xs prev out : List ℕ) (starred : Bool)
    (at : IsAt i total k (x ∷ xs) prev out starred) where
  abbrev l : List ℕ
  l = x ∷ xs

  row_starts : i ≡ length out + 16 * k
  row_starts = ground (arith, at.here)

  prev_full : length prev ≡ 16
  prev_full = ground (arith, at.full)

  fresh-IsAt :
      IsAt (i + 16) total 0 (drop 16 l) (take 16 l) ((out ++ copies k prev) ++ take 16 l) false
  fresh-IsAt =
      let before = length-fill k out prev (inl prev_full) in
      let longer = length-append (out ++ copies k prev) (take 16 l) in
      let chunk = length-chunk 16 l in
      record {
        here = ground (arith, chunk_cases 16 l, row_starts);
        ends = omega (arith, at.ends);
        unstarred = λ _. refl;
        full = ground (arith, chunk_cases 16 l);
        small = All-drop IsByte 16 l at.small;
      }

  again-IsAt : prev ≡ take 16 l → IsAt (i + 16) total (suc k) (drop 16 l) (take 16 l) out true
  again-IsAt e =
      let chunk = length-chunk 16 l in
      let same_length = ap length e in
      record {
        here = inr (omega (arith, row_starts));
        ends = omega (arith, at.ends, prev_full);
        unstarred = λ h. cc;
        full = inl (omega (arith, prev_full));
        small = All-drop IsByte 16 l at.small;
      }

-- A repetition is announced by the first "*" only.
star_read :
    (base : ℕ) (lines : List Text) (end : Text) (out last : List ℕ) (shown : Text) (starred : Bool)
    → same shown star ≡ starred
    → undump base
        ((if not (same shown star) then star ∷ lines else lines) ++ end ∷ [])
        out
        last
        starred
      ≡ undump base (lines ++ end ∷ []) out last true
star_read base lines end out last shown true ss = rw ss refl
star_read base lines end out last shown false ss =
    rw ss (undump_step base star lines end out last false)

chunk_again :
    (k : ℕ) (l : List ℕ) → copies (suc k) (take 16 l) ++ drop 16 l ≡ copies k (take 16 l) ++ l
chunk_again k l =
    sym (copies_last k (take 16 l) (drop 16 l))
    ∙ ap (λ (t : List ℕ). copies k (take 16 l) ++ t) (take-append-drop 16 l)

chunk_fresh : (out kept l : List ℕ) → ((out ++ kept) ++ take 16 l) ++ drop 16 l ≡ out ++ (kept ++ l)
chunk_fresh out kept l =
    append_assoc (out ++ kept) (take 16 l) (drop 16 l)
    ∙ ap (λ (t : List ℕ). (out ++ kept) ++ t) (take-append-drop 16 l)
    ∙ append_assoc out kept l

-- The remaining rows and the last line are read back.
rows-undump :
    (off total fuel i k : ℕ) (rest prev : List ℕ) (shown : Text) (out : List ℕ) (starred : Bool)
    → IsAt i total k rest prev out starred
    → length rest ≤ fuel
    → same shown star ≡ starred
    → undump off
        (rows off fuel i rest (some prev) (some shown) ++ hex 8 (off + total) ∷ [])
        out
        prev
        starred
      ≡ some (out ++ (copies k prev ++ rest))
unfolding rows
rows-undump off total fuel i k [] prev shown out starred at bound ss =
    rw (append-nil (copies k prev)) (
      undump_end off k (off + total) out prev starred (omega (arith, at.ends)) at.unstarred
        (ground (arith, at.full)))
rows-undump off total zero i k (x ∷ xs) prev shown out starred at bound ss = absurd (omega arith)
rows-undump off total (suc fuel) i k (x ∷ xs) prev shown out starred at bound ss =
    let l : List ℕ = x ∷ xs in
    let enough : length (drop 16 l) ≤ fuel = omega (arith, length-drop 16 l) in
    elim (Bool-cases (same prev (take 16 l))) [
      | inl again ↦
          let e = same_iff prev (take 16 l) again in
          let rest =
            rows-undump off total fuel (i + 16) (suc k) (drop 16 l) (take 16 l) star out true
              (again-IsAt i total k x xs prev out starred at e) enough refl in
          rw again (
            star_read off _ (hex 8 (off + total)) out prev shown starred ss
            ∙ rw e (rest ∙ ap (λ (t : List ℕ). some (out ++ t)) (chunk_again k l)))
      | inr fresh ↦
          let rest =
            rows-undump off total fuel (i + 16) 0 (drop 16 l) (take 16 l)
              (row (off + i) (take 16 l)) ((out ++ copies k prev) ++ take 16 l) false
              (fresh-IsAt i total k x xs prev out starred at) enough
              (row_not_star (off + i) (take 16 l)) in
          rw fresh (
            undump-row off k (off + i) (take 16 l) _ (hex 8 (off + total)) out prev starred
              (omega (arith, row_starts i total k x xs prev out starred at)) at.unstarred
              (inl (prev_full i total k x xs prev out starred at)) (All-take IsByte 16 l at.small)
            ∙ rest
            ∙ ap some (chunk_fresh out (copies k prev) l))
    ]

-- The lines of a dump are read back.
pub undump-hexdump :
    (buf : List ℕ) (off : ℕ) → All IsByte buf → undump off (hexdump buf off) [] [] false ≡ some buf
unfolding hexdump
undump-hexdump [] off h =
    undump_end off 0 (off + 0) [] [] false (omega arith) (λ _. refl) (inr refl)
undump-hexdump (x ∷ xs) off h =
    let l : List ℕ = x ∷ xs in
    let start : IsAt 0 (length l) 0 l (replicate 16 0) [] false = record {
      here = inr (omega arith);
      ends = omega arith;
      unstarred = λ _. refl;
      full = inl refl;
      small = h;
    } in
    let first = row (off + 0) (take 16 l) in
    undump-row off 0 (off + 0) (take 16 l) _ (hex 8 (off + length l)) [] [] false (omega arith)
      (λ _. refl) (inr refl) (All-take IsByte 16 l h)
    ∙ rows-undump off (length l) (length xs) (0 + 16) 0 (drop 16 l) (take 16 l) first (take 16 l)
        false (fresh-IsAt 0 (length l) 0 x xs (replicate 16 0) [] false start)
        (omega (arith, length-drop 16 l)) (row_not_star (off + 0) (take 16 l))
    ∙ ap some (take-append-drop 16 l)
