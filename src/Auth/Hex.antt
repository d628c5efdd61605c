-- ===== src/Auth/Hex.antt =====
-- The printed digest.
use esp.Base.{
  ℕ, ◌+◌, ◌-◌, ◌*◌, ◌/◌, ◌%◌, ◌<◌, ◌≡◌, ◌≢◌, refl, sym, ap₂, ◌∙◌, List, [], ◌∷◌, ◌++◌, ltb,
  if◌then◌else◌, length, All, arith,
}
use mathlib.Core.List.{append_assoc, append-nil}
use esp.Base.Bytes.{Text, Absent}
use esp.Auth.{hex_digit, hex_byte, hex_str, eq_sign}

-- The digits without the accumulator.
pub hex_digits : List ℕ → Text
hex_digits [] = []
hex_digits (b ∷ bytes) = hex_byte b ++ hex_digits bytes

pub hex_str-digits : (acc : Text) (bytes : List ℕ) → hex_str acc bytes ≡ acc ++ hex_digits bytes
unfolding hex_str hex_digits hex_byte
hex_str-digits acc [] = sym (append-nil acc)
hex_str-digits acc (b ∷ bytes) =
    hex_str-digits (acc ++ hex_byte b) bytes ∙ append_assoc acc (hex_byte b) (hex_digits bytes)

-- Reading the digits back.
digit_value : ℕ → ℕ
digit_value c = if ltb c b'a' then c - b'0' else c - b'a' + 10

pub decode : Text → List ℕ
decode [] = []
decode (c ∷ []) = []
decode (c ∷ d ∷ s) = (digit_value c * 16 + digit_value d) ∷ decode s

digit_value-hex_digit : (n : ℕ) → n < 16 → digit_value (hex_digit n) ≡ n
unfolding digit_value hex_digit
digit_value-hex_digit n h = ground arith

hex_digit_plain : (n : ℕ) → n < 16 → (hex_digit n ≢ 0) × (hex_digit n ≢ eq_sign)
unfolding hex_digit
hex_digit_plain n h = ground arith

module _ (b : ℕ) (h : b < 256) where
  digits_of_byte :
      (digit_value (hex_digit (b / 16)) * 16 + digit_value (hex_digit (b % 16)) ≡ b)
      × Absent 0 (hex_byte b)
      × Absent eq_sign (hex_byte b)
  unfolding hex_byte
  digits_of_byte =
      let hi : b / 16 < 16 = omega arith in
      let lo : b % 16 < 16 = omega arith in
      (
        omega (arith, digit_value-hex_digit (b / 16) hi, digit_value-hex_digit (b % 16) lo),
        ((hex_digit_plain (b / 16) hi).0, ((hex_digit_plain (b % 16) lo).0, tt)),
        ((hex_digit_plain (b / 16) hi).1, ((hex_digit_plain (b % 16) lo).1, tt)),
      )

hex_digits_roundtrip :
    (bytes : List ℕ)
    → All (λ b. b < 256) bytes
    → (decode (hex_digits bytes) ≡ bytes)
      × (length (hex_digits bytes) ≡ 2 * length bytes)
      × Absent 0 (hex_digits bytes)
      × Absent eq_sign (hex_digits bytes)
unfolding hex_digits decode hex_byte
hex_digits_roundtrip [] h = (refl, refl, tt, tt)
hex_digits_roundtrip (b ∷ bytes) h =
    let this = digits_of_byte b h.0 in
    let rest = hex_digits_roundtrip bytes h.1 in
    (
      ap₂ (λ (x : ℕ) (xs : List ℕ). x ∷ xs) this.0 rest.0,
      omega (arith, rest.1),
      (this.1.0, (this.1.1.0, rest.2)),
      (this.2.0, (this.2.1.0, rest.3)),
    )

-- From the printed digest the bytes can be read back, so two digests never share a session key.
-- The text has two digits for each byte, and neither a zero byte nor an equals sign.
pub hex_str_roundtrip :
    (bytes : List ℕ)
    → All (λ b. b < 256) bytes
    → (decode (hex_str [] bytes) ≡ bytes)
      × (length (hex_str [] bytes) ≡ 2 * length bytes)
      × Absent 0 (hex_str [] bytes)
      × Absent eq_sign (hex_str [] bytes)
hex_str_roundtrip bytes h = rw (hex_str-digits [] bytes) (hex_digits_roundtrip bytes h)
