-- ===== src/Hex.antt =====
-- `bytes.hex()` and `bytes.fromhex()`, as the program uses them on hashes and nonces.
use mybench.Base.{
  All, Bool, Bytes, Option, Result, [], ap, arith, err, false, if◌then◌else◌, leb, length, ltb,
  none, ok, ok_injective, refl, some, sym, value_error, ℕ, ◌%◌, ◌&&◌, ◌*◌, ◌+◌, ◌-◌, ◌/◌, ◌<◌, ◌==◌,
  ◌||◌, ◌∙◌, ◌∷◌, ◌≡◌,
}

-- Every number is a byte.
abbrev pub IsBytes : Bytes → Type 0
IsBytes = All (λ b. b < 256)

abbrev pub hex_digit : ℕ → ℕ
hex_digit n = if ltb n 10 then b'0' + n else 87 + n

unfoldable pub hex : Bytes → Bytes
hex [] = []
hex (b ∷ bs) = hex_digit (b / 16) ∷ hex_digit (b % 16) ∷ hex bs

-- The value of a hexadecimal digit, in lower or upper case.
abbrev pub digit_value : ℕ → Option ℕ
digit_value c =
    if leb b'0' c && leb c b'9'
    then some (c - b'0')
    else if leb b'a' c && leb c b'f'
    then some (c - 87)
    else if leb b'A' c && leb c b'F'
    then some (c - 55)
    else none

-- ASCII white space, which `fromhex` skips between bytes.
abbrev pub is_space : ℕ → Bool
is_space c = c == 32 || (leb 9 c && leb c 13)

abbrev pub pair_byte : Option ℕ → Option ℕ → Result Bytes → Result Bytes
pair_byte (some h) (some l) (ok bs) = ok ((h * 16 + l) ∷ bs)
pair_byte (some h) (some l) (err e) = err e
pair_byte (some h) none rest = err value_error
pair_byte none l rest = err value_error

unfoldable pub fromhex : Bytes → Result Bytes
fromhex [] = ok []
fromhex (c ∷ []) = if is_space c then ok [] else err value_error
fromhex (c ∷ d ∷ cs) =
    let skip = fromhex (d ∷ cs) in
    let rest = fromhex cs in
    if is_space c then skip else pair_byte (digit_value c) (digit_value d) rest

pub hex_digit_value : (n : ℕ) → n < 16 → digit_value (hex_digit n) ≡ some n
hex_digit_value n h = ground arith

hex_digit-not_space : (n : ℕ) → n < 16 → is_space (hex_digit n) ≡ false
hex_digit-not_space n h = ground arith

-- Bytes are read back from their hexadecimal text.
pub fromhex-hex : (bs : Bytes) → IsBytes bs → fromhex (hex bs) ≡ ok bs
unfolding hex fromhex
fromhex-hex [] h = refl
fromhex-hex (b ∷ bs) h =
    rw
      (
        hex_digit-not_space (b / 16) (omega (arith, h.0)),
        hex_digit_value (b / 16) (omega (arith, h.0)),
        hex_digit_value (b % 16) (omega arith),
        fromhex-hex bs h.1,
      )
      (ap (λ t. ok (t ∷ bs)) (omega arith))

pub hex-length : (bs : Bytes) → length (hex bs) ≡ length bs * 2
unfolding hex
hex-length [] = refl
hex-length (b ∷ bs) = omega (arith, hex-length bs)

-- The text determines the bytes.
pub hex_injective : (bs cs : Bytes) → IsBytes bs → IsBytes cs → hex bs ≡ hex cs → bs ≡ cs
hex_injective bs cs hb hc e =
    ok_injective bs cs (sym (fromhex-hex bs hb) ∙ (ap fromhex e ∙ fromhex-hex cs hc))
