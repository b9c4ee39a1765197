-- ===== src/Python/Base64.antt =====
-- `binascii.a2b_base64`: characters outside the alphabet are passed over, and padding that
-- completes a group of four ends the data.
use pedge.Prelude.{
  ℕ, ◌+◌, ◌-◌, ◌*◌, ◌/◌, ◌%◌, ◌≡◌, refl, [], ◌∷◌, ◌++◌, ◌&&◌, leb, ◌==◌, Option, none, some,
  if◌then◌else◌,
}
use pedge.Python.Bytes.{Bytes, Str}
use pedge.Exceptions.{Result, ok, err, binascii_error}

sextet : ℕ → Option ℕ
sextet c =
    if leb b'A' c && leb c b'Z'
    then some (c - b'A')
    else if leb b'a' c && leb c b'z'
    then some (c - b'a' + 26)
    else if leb b'0' c && leb c b'9'
    then some (c - b'0' + 52)
    else if c == b'+'
    then some 62
    else if c == b'/'
    then some 63
    else none

-- The position in the group, the bits kept from the last character, and the padding seen.
record Group : Type 0 where
  quad_pos : ℕ
  leftchar : ℕ
  pads : ℕ

-- The bytes that a character completes, and the group after it.
take_sextet : Group → ℕ → Bytes × Group
take_sextet g d =
    if g.quad_pos == 0
    then ([], record { quad_pos = 1; leftchar = d; pads = 0 })
    else if g.quad_pos == 1
    then ((g.leftchar * 4 + d / 16) ∷ [], record { quad_pos = 2; leftchar = d % 16; pads = 0 })
    else if g.quad_pos == 2
    then ((g.leftchar * 16 + d / 4) ∷ [], record { quad_pos = 3; leftchar = d % 4; pads = 0 })
    else ((g.leftchar * 64 + d) ∷ [], record { quad_pos = 0; leftchar = 0; pads = 0 })

-- `none` ends the data.
take_char : Group → ℕ → Option (Bytes × Group)
unfolding take_sextet sextet
take_char g c =
    if c == b'='
    then (if leb 2 g.quad_pos
        then (if leb 4 (g.quad_pos + g.pads + 1)
            then none
            else some ([], record g { pads = g.pads + 1 }))
        else some ([], g))
    else elim (sextet c) [ none ↦ some ([], g) | some d ↦ some (take_sextet g d) ]

decode_from : Group → Bytes → Str → Result Bytes
unfolding take_char
decode_from g out [] = if g.quad_pos == 0 then ok out else err binascii_error
decode_from g out (c ∷ s) = elim (take_char g c) [
  | none ↦ ok out
  | some (bs, g') ↦ decode_from g' (out ++ bs) s
]

unfoldable pub a2b_base64 : Str → Result Bytes
unfolding decode_from
a2b_base64 s = decode_from (record { quad_pos = 0; leftchar = 0; pads = 0 }) [] s

-- "cGVk" and "cGU=".
a2b_base64_example :
    (a2b_base64 (b'c' ∷ b'G' ∷ b'V' ∷ b'k' ∷ []) ≡ ok (b'p' ∷ b'e' ∷ b'd' ∷ []))
    × (a2b_base64 (b'c' ∷ b'G' ∷ b'U' ∷ b'=' ∷ []) ≡ ok (b'p' ∷ b'e' ∷ []))
    × (a2b_base64 (b'c' ∷ b'G' ∷ b'U' ∷ []) ≡ err binascii_error)
unfolding a2b_base64
a2b_base64_example = (refl, refl, refl)
