-- ===== src/Agent/HexDump/Lines.antt =====
-- One line of a dump, read behind others.
use sat_os_payload_sdk.Prelude.{
  ℕ, zero, suc, ◌+◌, ◌-◌, ◌*◌, ◌/◌, ◌<◌, ◌≤◌, ◌≡◌, ◌∙◌, refl, sym, ap, ◌==◌, if◌then◌else◌, List,
  [], ◌∷◌, ◌++◌, append_assoc, append-nil, length, length-append, replicate, All, none, some, false,
  true, Bool, ◌||◌, ◌⊎◌, inl, inr, arith,
}
use sat_os_payload_sdk.Agent.HexDump.{Text, star, same, row, hex, hex_digits}
use sat_os_payload_sdk.Agent.HexDump.Numbers.{hex-All, IsDigit}
use sat_os_payload_sdk.Agent.HexDump.Reader.{
  undump, fill, offset_of, bytes_of, offset_of-row, offset_of-hex, bytes_of-row, IsByte, copies,
}

pub same_iff : (s t : List ℕ) → same s t ≡ true → s ≡ t
same_iff [] [] h = refl
same_iff [] (y ∷ t) h = cc
same_iff (x ∷ s) [] h = cc
same_iff (x ∷ s) (y ∷ t) h = ground (arith, same_iff s t)

same_refl : (s : List ℕ) → same s s ≡ true
same_refl [] = refl
same_refl (x ∷ s) = ground (arith, same_refl s)

length-replicate : (n : ℕ) (c : ℕ) → length (replicate n c) ≡ n
length-replicate zero c = refl
length-replicate (suc n) c = omega (arith, length-replicate n c)

length-hex : (width n : ℕ) → width ≤ length (hex width n)
unfolding hex
length-hex width n =
    let digits = hex_digits (suc n) n in
    omega (
      arith,
      length-append (replicate (width - length digits) b'0') digits,
      length-replicate (width - length digits) b'0',
    )

digits_not_star :
    (word t : Text) → All IsDigit word → 0 < length word → same (word ++ t) star ≡ false
digits_not_star [] t h pos = absurd (omega arith)
digits_not_star (c ∷ word) t h pos = let digit = h.0.not_star in ground arith

-- No line with an offset is the line of a repetition.
pub row_not_star : (offset : ℕ) (bs : List ℕ) → same (row offset bs) star ≡ false
unfolding row
row_not_star offset bs =
    digits_not_star (hex 8 offset) _ (hex-All 8 offset) (omega (arith, length-hex 8 offset))

length-copies : (k : ℕ) (l : List ℕ) → length l ≡ 16 → length (copies k l) ≡ 16 * k
length-copies zero l h = omega arith
length-copies (suc k) l h = omega (arith, length-append l (copies k l), length-copies k l h, h)

pub copies_last : (k : ℕ) (l t : List ℕ) → copies k l ++ (l ++ t) ≡ copies (suc k) l ++ t
copies_last zero l t = ap (λ (s : List ℕ). s ++ t) (sym (append-nil l))
copies_last (suc k) l t =
    append_assoc l (copies k l) (l ++ t)
    ∙ ap (λ (s : List ℕ). l ++ s) (copies_last k l t)
    ∙ sym (append_assoc l (copies (suc k) l) t)

-- The copies that fit before an offset.
fill_lem :
    (base offset k : ℕ) (out last : List ℕ) (starred : Bool)
    → offset ≡ base + length out + 16 * k
    → (starred ≡ false → k ≡ 0)
    → fill base offset out last starred ≡ out ++ copies k last
fill_lem base offset k out last true e h =
    let count : (offset - base - length out) / 16 ≡ k = omega arith in rw count refl
fill_lem base offset k out last false e h = rw (h refl) (sym (append-nil out))

pub length-fill :
    (k : ℕ) (out last : List ℕ)
    → (length last ≡ 16) ⊎ (k ≡ 0)
    → length (out ++ copies k last) ≡ length out + 16 * k
length-fill k out last (inl full) =
    omega (arith, length-append out (copies k last), length-copies k last full)
length-fill k out last (inr none_left) = rw (none_left, append-nil) (omega arith)

-- One line is read, of several.
pub undump_step :
    (base : ℕ) (line : Text) (lines : List Text) (end : Text) (out last : List ℕ) (starred : Bool)
    → undump base (line ∷ (lines ++ end ∷ [])) out last starred ≡ (
        let repeats = same line star in
        let filled = fill base (offset_of line) out last starred in
        let rest =
          undump base
            (lines ++ end ∷ [])
            (if repeats then out else filled ++ bytes_of line)
            (if repeats then last else bytes_of line)
            repeats in
        if repeats || offset_of line == base + length filled then rest else none)
unfolding undump
undump_step base line [] end out last starred = refl
undump_step base line (next ∷ lines) end out last starred = refl

-- A row that fits is appended, behind the copies that a "*" before it stands for.
pub undump-row :
    (base k offset : ℕ) (bs : List ℕ) (lines : List Text) (end : Text) (out last : List ℕ)
    (starred : Bool)
    → offset ≡ base + length out + 16 * k
    → (starred ≡ false → k ≡ 0)
    → (length last ≡ 16) ⊎ (k ≡ 0)
    → All IsByte bs
    → undump base (row offset bs ∷ (lines ++ end ∷ [])) out last starred
      ≡ undump base (lines ++ end ∷ []) ((out ++ copies k last) ++ bs) bs false
undump-row base k offset bs lines end out last starred e h full small =
    undump_step base (row offset bs) lines end out last starred
    ∙ rw
        (
          row_not_star offset bs,
          offset_of-row offset bs,
          bytes_of-row offset bs small,
          fill_lem base offset k out last starred e h,
        )
        (let fits : (offset == base + length (out ++ copies k last)) ≡ true =
            ground (arith, length-fill k out last full) in
          rw fits refl)

-- The last line says where the buffer ends.
pub undump_end :
    (base k offset : ℕ) (out last : List ℕ) (starred : Bool)
    → offset ≡ base + length out + 16 * k
    → (starred ≡ false → k ≡ 0)
    → (length last ≡ 16) ⊎ (k ≡ 0)
    → undump base (hex 8 offset ∷ []) out last starred ≡ some (out ++ copies k last)
unfolding undump
undump_end base k offset out last starred e h full =
    rw (offset_of-hex offset, fill_lem base offset k out last starred e h)
      (let fits : (offset == base + length (out ++ copies k last)) ≡ true =
          ground (arith, length-fill k out last full) in
        rw fits refl)
