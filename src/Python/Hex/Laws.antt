-- ===== src/Python/Hex/Laws.antt =====
-- Hex texts and the bytes that they stand for.
use pedge.Prelude.{All, ℕ, ◌+◌, ◌*◌, ◌/◌, ◌%◌, ◌<◌, ◌≡◌, refl, ap, arith, [], ◌∷◌, some, length}
use pedge.Exceptions.{ok, or_raise, binascii_error, >>=-eq-ok}
use pedge.Python.Bytes.{Bytes, Str}
use pedge.Python.Hex.{hexlify, unhex, hex_digit, digit_value}

digit_value-hex_digit : (d : ℕ) → d < 16 → digit_value (hex_digit d) ≡ some d
unfolding digit_value hex_digit
digit_value-hex_digit d h = ground arith

-- What hexlify writes, the decoder reads.
pub unhex-hexlify : (bs : Bytes) → All (λ b. b < 256) bs → unhex (hexlify bs) ≡ ok bs
unfolding unhex hexlify
unhex-hexlify [] h = refl
unhex-hexlify (b ∷ bs) h =
    rw
      (
        digit_value-hex_digit (b / 16) (omega (arith, h.0)),
        digit_value-hex_digit (b % 16) (omega arith),
        unhex-hexlify bs h.1,
      )
      (ap (λ k. ok (k ∷ bs)) {x = b / 16 * 16 + b % 16} {y = b} (omega arith))

pub length-hexlify : (bs : Bytes) → length (hexlify bs) ≡ 2 * length bs
unfolding hexlify
length-hexlify [] = refl
length-hexlify (b ∷ bs) = ground (arith, length-hexlify bs)

-- Decoding halves the length.
pub length-unhex : (s : Str) {bs : Bytes} → unhex s ≡ ok bs → length s ≡ 2 * length bs
unfolding unhex
length-unhex [] h = ground arith
length-unhex (c ∷ []) h = cc
length-unhex (c ∷ d ∷ s) h =
    let (hi, p, h₁) = >>=-eq-ok (or_raise (digit_value c) binascii_error) _ h in
    let (lo, q, h₂) = >>=-eq-ok (or_raise (digit_value d) binascii_error) _ h₁ in
    let (bs, r, h₃) = >>=-eq-ok (unhex s) _ h₂ in ground (arith, length-unhex s r)
