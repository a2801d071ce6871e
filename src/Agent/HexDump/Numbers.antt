-- ===== src/Agent/HexDump/Numbers.antt =====
-- Hexadecimal numbers read back: the value of the digits that `{:x}` writes.
use sat_os_payload_sdk.Prelude.{
  ℕ, zero, suc, ◌+◌, ◌-◌, ◌*◌, ◌/◌, ◌%◌, ◌<◌, ◌≡◌, ◌≢◌, refl, ◌∙◌, ltb, if◌then◌else◌, [], ◌∷◌,
  ◌++◌, replicate, All, All-append, lt→ltb, Bool-cases, inl, inr, arith, ltb→lt,
}
use sat_os_payload_sdk.Agent.HexDump.{Text, space, bar, hex, hex_digits, hex_digit}

-- The value of a digit, and of a text of digits behind the digits of `acc`.
unfoldable pub digit_value : ℕ → ℕ
digit_value c = if ltb c 58 then c - 48 else c - 87

unfoldable pub value : ℕ → Text → ℕ
unfolding digit_value
value acc [] = acc
value acc (c ∷ t) = value (acc * 16 + digit_value c) t

-- What separates the parts of a line is no digit.
pub record IsDigit (c : ℕ) : Type 0 where
  pub not_space : c ≢ space
  pub not_bar : c ≢ bar
  pub not_star : c ≢ b'*'
  pub not_break : c ≢ 10

pub digit_value-hex_digit : (d : ℕ) → d < 16 → digit_value (hex_digit d) ≡ d
unfolding digit_value hex_digit
digit_value-hex_digit d h = ground arith

pub hex_digit-IsDigit : (d : ℕ) → d < 16 → IsDigit (hex_digit d)
unfolding hex_digit
hex_digit-IsDigit d h = record {
  not_space = λ e. ground arith;
  not_bar = λ e. ground arith;
  not_star = λ e. ground arith;
  not_break = λ e. ground arith;
}

value-append : (acc : ℕ) (s t : Text) → value acc (s ++ t) ≡ value (value acc s) t
unfolding value
value-append acc [] t = refl
value-append acc (c ∷ s) t = value-append (acc * 16 + digit_value c) s t

value-zeros : (k : ℕ) (t : Text) → value 0 (replicate k b'0' ++ t) ≡ value 0 t
unfolding value digit_value
value-zeros zero t = refl
value-zeros (suc k) t = value-zeros k t

value-hex_digits : (fuel n : ℕ) → n < fuel → value 0 (hex_digits fuel n) ≡ n
unfolding hex_digits value
value-hex_digits zero n h = absurd (omega arith)
value-hex_digits (suc fuel) n h = elim (Bool-cases (ltb n 16)) [
  | inl low ↦ rw (low, digit_value-hex_digit n (ltb→lt n 16 low)) (omega arith)
  | inr high ↦
      rw
        (
          high,
          value-append 0 (hex_digits fuel (n / 16)) (hex_digit (n % 16) ∷ []),
          value-hex_digits fuel (n / 16) (ground arith),
          digit_value-hex_digit (n % 16) (omega arith),
        )
        (omega arith)
]

-- Padded to any width, the digits are worth the number.
pub value-hex : (width n : ℕ) → value 0 (hex width n) ≡ n
unfolding hex
value-hex width n = value-zeros _ (hex_digits (suc n) n) ∙ value-hex_digits (suc n) n (omega arith)

hex_digits-All : (fuel n : ℕ) → All IsDigit (hex_digits fuel n)
unfolding hex_digits
hex_digits-All zero n = tt
hex_digits-All (suc fuel) n = elim (Bool-cases (ltb n 16)) [
  | inl low ↦ rw low (hex_digit-IsDigit n (ltb→lt n 16 low), tt)
  | inr high ↦ rw high (
      All-append IsDigit (hex_digits fuel (n / 16)) _ (hex_digits-All fuel (n / 16))
        (hex_digit-IsDigit (n % 16) (omega arith), tt))
]

zeros-All : (k : ℕ) → All IsDigit (replicate k b'0')
unfolding hex_digit
zeros-All zero = tt
zeros-All (suc k) = (hex_digit-IsDigit 0 (omega arith), zeros-All k)

pub hex-All : (width n : ℕ) → All IsDigit (hex width n)
unfolding hex
hex-All width n = All-append IsDigit _ _ (zeros-All _) (hex_digits-All (suc n) n)

hex_digits_low : (fuel n : ℕ) → n < fuel → n < 16 → hex_digits fuel n ≡ hex_digit n ∷ []
unfolding hex_digits
hex_digits_low zero n h low = absurd (omega arith)
hex_digits_low (suc fuel) n h low = rw (lt→ltb n 16 low) refl

-- A byte has two digits.
pub hex-byte : (x : ℕ) → x < 256 → hex 2 x ≡ hex_digit (x / 16) ∷ hex_digit (x % 16) ∷ []
unfolding hex hex_digits
hex-byte x h = elim (Bool-cases (ltb x 16)) [
  | inl low ↦
      let e : x / 16 ≡ 0 = ground arith in let f : x % 16 ≡ x = ground arith in rw (low, e, f) refl
  | inr high ↦ rw (high, hex_digits_low x (x / 16) (ground arith) (omega arith)) refl
]
