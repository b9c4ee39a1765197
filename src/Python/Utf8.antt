-- ===== src/Python/Utf8.antt =====
-- `str.encode()` and `bytes.decode()`: UTF-8.
use pedge.Prelude.{
  ℕ, ◌+◌, ◌-◌, ◌*◌, ◌/◌, ◌%◌, ◌<◌, ◌≡◌, refl, [], ◌∷◌, ◌++◌, Bool, true, ◌&&◌, not, ◌==◌, ltb, leb,
  if◌then◌else◌, lt→ltb,
}
use pedge.Python.Bytes.{Bytes, Str}
use pedge.Exceptions.{Result, ok, err, unicode_error, ◌>>=◌}

abbrev is_surrogate : ℕ → Bool
is_surrogate c = leb 0xD800 c && ltb c 0xE000

-- The bytes of one code point; a lone surrogate raises UnicodeEncodeError.
unfoldable pub encode_char : ℕ → Result Bytes
encode_char c =
    if ltb c 0x80
    then ok (c ∷ [])
    else if ltb c 0x800
    then ok ((0xC0 + c / 64) ∷ (0x80 + c % 64) ∷ [])
    else if is_surrogate c
    then err unicode_error
    else if ltb c 0x10000
    then ok ((0xE0 + c / 4096) ∷ (0x80 + c / 64 % 64) ∷ (0x80 + c % 64) ∷ [])
    else ok
        ((0xF0 + c / 262144) ∷ (0x80 + c / 4096 % 64) ∷ (0x80 + c / 64 % 64) ∷ (0x80 + c % 64) ∷ [])

unfoldable pub encode : Str → Result Bytes
unfolding encode_char
encode [] = ok []
encode (c ∷ cs) = do b ← encode_char c; bs ← encode cs; ok (b ++ bs)

abbrev pub IsAscii : Str → Type 0
IsAscii [] = Unit
IsAscii (c ∷ cs) = (c < 0x80) × IsAscii cs

-- An ASCII text is its own encoding.
pub encode_ascii : (s : Str) → IsAscii s → encode s ≡ ok s
unfolding encode
encode_ascii [] h = refl
encode_ascii (c ∷ cs) h = rw (lt→ltb c 0x80 h.0, encode_ascii cs h.1)

-- Where the decoder stands: how many continuation bytes it awaits, the bits read so far, and the
-- least code point that so long a form may stand for.
record Pending : Type 0 where
  need : ℕ
  bits : ℕ
  low : ℕ

abbrev between_chars : Pending
between_chars = record { need = 0; bits = 0; low = 0 }

start_char : ℕ → Result Pending
start_char b =
    if leb 0xC2 b && ltb b 0xE0
    then ok (record { need = 1; bits = b - 0xC0; low = 0x80 })
    else if leb 0xE0 b && ltb b 0xF0
    then ok (record { need = 2; bits = b - 0xE0; low = 0x800 })
    else if leb 0xF0 b && ltb b 0xF5
    then ok (record { need = 3; bits = b - 0xF0; low = 0x10000 })
    else err unicode_error

is_char : ℕ → ℕ → Bool
is_char low c = leb low c && (ltb c 0x110000 && not (is_surrogate c))

decode_from : Pending → Bytes → Result Str
unfolding start_char is_char
decode_from p [] = if p.need == 0 then ok [] else err unicode_error
decode_from p (b ∷ bs) =
    let plain = decode_from between_chars bs in
    let c : ℕ = p.bits * 64 + (b - 0x80) in
    if p.need == 0
    then (if ltb b 0x80
        then (plain >>= λ s. ok (b ∷ s))
        else (start_char b >>= λ q. decode_from q bs))
    else if not (leb 0x80 b && ltb b 0xC0)
    then err unicode_error
    else if p.need == 1
    then (if is_char p.low c then (plain >>= λ s. ok (c ∷ s)) else err unicode_error)
    else decode_from (record { need = p.need - 1; bits = c; low = p.low }) bs

-- `bytes.decode()`: overlong forms, surrogates and stray bytes raise UnicodeDecodeError.
unfoldable pub decode : Bytes → Result Str
unfolding decode_from
decode bs = decode_from between_chars bs

-- The Euro sign, there and back.
decode-encode_euro : (encode (0x41 ∷ 0x20AC ∷ []) >>= decode) ≡ ok (0x41 ∷ 0x20AC ∷ [])
unfolding encode decode
decode-encode_euro = refl

abbrev pub all_ascii : Str → Bool
all_ascii [] = true
all_ascii (c ∷ s) = ltb c 0x80 && all_ascii s
