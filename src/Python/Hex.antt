-- ===== src/Python/Hex.antt =====
-- `hex()`, `binascii.hexlify`, and the hex decoders `codecs.decode(_, 'hex')` and
-- `binascii.a2b_hex`. A text is a list of code points.
pub mod Laws
use pedge.Prelude.{
  ℕ, zero, suc, ◌+◌, ◌-◌, ◌*◌, ◌/◌, ◌%◌, ◌≡◌, refl, [], ◌∷◌, ◌++◌, ◌&&◌, ltb, leb, ℤ, pos, negsuc,
  if◌then◌else◌, Option, none, some,
}
use pedge.Python.Bytes.{Bytes, Str}
use pedge.Exceptions.{Result, ok, err, binascii_error, ◌>>=◌, or_raise}

-- The lower-case digit of a number below 16.
unfoldable pub hex_digit : ℕ → ℕ
hex_digit d = if ltb d 10 then b'0' + d else b'a' + d - 10

unfoldable pub digit_value : ℕ → Option ℕ
digit_value c =
    if leb b'0' c && leb c b'9'
    then some (c - b'0')
    else if leb b'a' c && leb c b'f'
    then some (c - b'a' + 10)
    else if leb b'A' c && leb c b'F'
    then some (c - b'A' + 10)
    else none

-- `binascii.hexlify`.
unfoldable pub hexlify : Bytes → Str
unfolding hex_digit
hexlify [] = []
hexlify (b ∷ bs) = hex_digit (b / 16) ∷ hex_digit (b % 16) ∷ hexlify bs

-- An odd length or another character raises binascii.Error.
unfoldable pub unhex : Str → Result Bytes
unfolding digit_value
unhex [] = ok []
unhex (c ∷ []) = err binascii_error
unhex (c ∷ d ∷ s) = do
  hi ← or_raise (digit_value c) binascii_error
  lo ← or_raise (digit_value d) binascii_error
  bs ← unhex s
  ok ((hi * 16 + lo) ∷ bs)

-- The digits of a number, highest first; the fuel bounds their count.
unfoldable pub hex_digits_fuel : ℕ → ℕ → Str
unfolding hex_digit
hex_digits_fuel zero n = []
hex_digits_fuel (suc fuel) n =
    let high = hex_digits_fuel fuel (n / 16) in
    if ltb n 16 then hex_digit n ∷ [] else high ++ (hex_digit (n % 16) ∷ [])

unfoldable pub hex_digits : ℕ → Str
unfolding hex_digits_fuel
hex_digits n = hex_digits_fuel (suc n) n

-- `hex(n)`, with its prefix.
unfoldable pub hex : ℤ → Str
unfolding hex_digits
hex (pos n) = b'0' ∷ b'x' ∷ hex_digits n
hex (negsuc n) = b'-' ∷ b'0' ∷ b'x' ∷ hex_digits (suc n)

hex_example : hex (pos 4160) ≡ b'0' ∷ b'x' ∷ b'1' ∷ b'0' ∷ b'4' ∷ b'0' ∷ []
unfolding hex
hex_example = refl

unhex-hexlify_example : unhex (hexlify (0 ∷ 255 ∷ 171 ∷ [])) ≡ ok (0 ∷ 255 ∷ 171 ∷ [])
unfolding unhex hexlify
unhex-hexlify_example = refl
