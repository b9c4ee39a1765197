-- ===== src/Python/Struct.antt =====
-- `struct.pack_into` and `struct.unpack` for the little-endian integer formats.
use pedge.Prelude.{
  ℕ, zero, suc, ◌+◌, ◌-◌, ◌*◌, ◌/◌, ◌%◌, ◌^◌, ◌≤◌, ◌<◌, lt→ltb, le→leb, ◌≡◌, refl, ap, [], ◌∷◌,
  arith, ltb, leb, ◌==◌, if◌then◌else◌, length, ℤ, pos, negsuc,
}
use native.Mathlib.Nat.{pow-suc}
use pedge.Python.Bytes.{Bytes, set_slice, length-set_slice}
use pedge.Exceptions.{Result, ok, err, struct_error, ◌>>=◌, ◌>>◌, guard, >>=-eq-ok}

-- The `w` low bytes of a number, lowest first.
abbrev pub le_bytes : ℕ → ℕ → Bytes
le_bytes zero n = []
le_bytes (suc w) n = n % 256 ∷ le_bytes w (n / 256)

abbrev pub from_le : Bytes → ℕ
from_le [] = 0
from_le (b ∷ bs) = b + 256 * from_le bs

-- The formats `B H I Q` (unsigned) and `b h i q` (signed), by their width in bytes.
pub data Format : Type 0 where
  unsigned signed : ℕ → Format

abbrev pub width : Format → ℕ
width (unsigned w) = w
width (signed w) = w

-- A value outside the format's range raises `struct.error`.
unfoldable pub pack : Format → ℤ → Result Bytes
pack (unsigned w) (pos n) = if ltb n (256 ^ w) then ok (le_bytes w n) else err struct_error
pack (unsigned w) (negsuc n) = err struct_error
pack (signed w) (pos n) = if ltb (2 * n) (256 ^ w) then ok (le_bytes w n) else err struct_error
pack (signed w) (negsuc n) =
    if ltb (2 * n) (256 ^ w) then ok (le_bytes w (256 ^ w - 1 - n)) else err struct_error

-- `struct.pack_into('<' + format, buffer, offset, value)`.
unfoldable pub pack_into : Format → Bytes → ℕ → ℤ → Result Bytes
pack_into format buffer offset value = do
  packed ← pack format value
  guard (leb (offset + width format) (length buffer)) struct_error
  ok (set_slice buffer offset (offset + width format) packed)

-- `struct.unpack('<I', data)[0]`.
unfoldable pub unpack : Bytes → Result ℕ
unpack bytes = do guard (length bytes == 4) struct_error; ok (from_le bytes)

pub length-le_bytes : (w n : ℕ) → length (le_bytes w n) ≡ w
length-le_bytes zero n = refl
length-le_bytes (suc w) n = ap suc (length-le_bytes w (n / 256))

-- Reading back what was packed, modulo the width.
pub from_le-le_bytes : (w n : ℕ) → n < 256 ^ w → from_le (le_bytes w n) ≡ n
from_le-le_bytes zero n h = omega arith
from_le-le_bytes (suc w) n h =
    omega (arith, from_le-le_bytes w (n / 256) (omega (arith, pow-suc 256 w)))

pub length-pack : (f : Format) (v : ℤ) {bs : Bytes} → pack f v ≡ ok bs → length bs ≡ width f
unfolding pack
length-pack (unsigned w) (pos n) e = ground (arith, length-le_bytes w n)
length-pack (unsigned w) (negsuc n) e = ground arith
length-pack (signed w) (pos n) e = ground (arith, length-le_bytes w n)
length-pack (signed w) (negsuc n) e = ground (arith, length-le_bytes w (256 ^ w - 1 - n))

pub length-pack_into :
    (f : Format) (buffer : Bytes) (offset : ℕ) (v : ℤ) {bs : Bytes}
    → pack_into f buffer offset v ≡ ok bs
    → length bs ≡ length buffer
unfolding pack_into
length-pack_into f buffer offset v e =
    let (packed, p, q) = >>=-eq-ok (pack f v) _ e in
    ground (arith, length-pack f v p, length-set_slice buffer offset (offset + width f) packed)

-- A number in range is stored, low byte first, wherever the buffer holds its bytes.
pub pack_into-ok :
    (w : ℕ) (buffer : Bytes) (offset n : ℕ)
    → n < 256 ^ w
    → offset + w ≤ length buffer
    → pack_into (unsigned w) buffer offset (pos n)
      ≡ ok (set_slice buffer offset (offset + w) (le_bytes w n))
unfolding pack_into pack
pack_into-ok w buffer offset n h k =
    rw (lt→ltb n (256 ^ w) h, le→leb (offset + w) (length buffer) k)
