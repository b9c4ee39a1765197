-- ===== src/Python/Number.antt =====
-- `int(text)`, `int(text, 0)` and `str.strip()`. Decimal digits beyond ASCII are not read.
use pedge.Prelude.{
  ℕ, zero, suc, ◌+◌, ◌*◌, ◌≡◌, refl, [], ◌∷◌, Bool, true, false, ◌&&◌, ◌||◌, ltb, leb, ◌==◌, Option,
  none, some, ℤ, pos, negsuc, if◌then◌else◌, reverse,
}
use pedge.Python.Bytes.{Bytes, Str}
use pedge.Python.Utf8.{all_ascii}
use pedge.Python.Hex.{digit_value}

-- The white space of `str`.
unfoldable pub is_space : ℕ → Bool
is_space c =
    (leb 0x09 c && leb c 0x0D)
    || ((leb 0x1C c && leb c 0x20)
        || ((c == 0x85 || c == 0xA0)
            || (c == 0x1680
                || ((leb 0x2000 c && leb c 0x200A)
                    || ((c == 0x2028 || c == 0x2029)
                        || (c == 0x202F || (c == 0x205F || c == 0x3000)))))))

-- The white space of `bytes`.
unfoldable pub is_ascii_space : ℕ → Bool
is_ascii_space c = (leb 0x09 c && leb c 0x0D) || c == 0x20

unfoldable pub drop_while : (ℕ → Bool) → Str → Str
drop_while p [] = []
drop_while p (c ∷ s) = elim (p c) [ true ↦ drop_while p s | false ↦ c ∷ s ]

-- `strip()`, by what counts as space.
unfoldable pub strip : (ℕ → Bool) → Str → Str
unfolding drop_while
strip p s = reverse (drop_while p (reverse (drop_while p s)))

-- Whether a digit stands just before, and the number so far.
abbrev pub Reading : Type 0
Reading = Bool × ℕ

-- One character: a digit of the base, or a single underscore between two digits.
unfoldable pub read_char : ℕ → Reading → ℕ → Option Reading
read_char base (after_digit, n) c =
    if c == b'_' then (if after_digit then some (false, n) else none) else elim (digit_value c) [
      | none ↦ none
      | some d ↦ if ltb d base then some (true, n * base + d) else none
    ]

unfoldable pub read_digits : ℕ → Reading → Str → Option ℕ
unfolding read_char digit_value
read_digits base (after_digit, n) [] = if after_digit then some n else none
read_digits base r (c ∷ s) = elim (read_char base r c) [
  | none ↦ none
  | some r' ↦ read_digits base r' s
]

-- A sign before what is read, which is not negative.
unfoldable pub signed_by : (Str → Option ℕ) → Str → Option ℤ
signed_by read [] = none
signed_by read (c ∷ s) =
    if c == b'-'
    then negated (read s)
    else if c == b'+'
    then plain (read s)
    else plain (read (c ∷ s))
  where
    plain : Option ℕ → Option ℤ
    plain none = none
    plain (some n) = some (pos n)

    negated : Option ℕ → Option ℤ
    negated none = none
    negated (some zero) = some (pos 0)
    negated (some (suc n)) = some (negsuc n)

-- What `int` takes for space around a text: the separators 0x1C to 0x1F only in a text with a
-- character beyond ASCII.
unfoldable pub number_space : Str → ℕ → Bool
unfolding is_ascii_space is_space
number_space s c = if all_ascii s then is_ascii_space c else is_space c

-- `int(text)`; `none` is ValueError.
unfoldable pub int : Str → Option ℤ
unfolding signed_by read_digits strip number_space
int s = signed_by (read_digits 10 (false, 0)) (strip (number_space s) s)

-- `int(data)` of `bytes`.
unfoldable pub int_bytes : Bytes → Option ℤ
unfolding signed_by read_digits strip is_ascii_space
int_bytes bs = signed_by (read_digits 10 (false, 0)) (strip is_ascii_space bs)

-- After a prefix such as `0x` one underscore may stand.
unfoldable pub read_prefixed : ℕ → Str → Option ℕ
unfolding read_digits
read_prefixed base [] = none
read_prefixed base (c ∷ s) =
    if c == b'_' then read_digits base (false, 0) s else read_digits base (false, 0) (c ∷ s)

unfoldable pub is_letter : ℕ → ℕ → Bool
is_letter lower c = c == lower || c + 32 == lower

-- Base 0: the prefix tells the base, and a decimal other than zero begins with no `0`.
unfoldable pub read_literal : Str → Option ℕ
unfolding read_prefixed is_letter
read_literal [] = none
read_literal (c ∷ []) = read_digits 10 (false, 0) (c ∷ [])
read_literal (c ∷ x ∷ s) =
    if c == b'0'
    then (if is_letter b'x' x
        then read_prefixed 16 s
        else if is_letter b'o' x
        then read_prefixed 8 s
        else if is_letter b'b' x
        then read_prefixed 2 s
        else only_zero (read_digits 10 (false, 0) (c ∷ x ∷ s)))
    else read_digits 10 (false, 0) (c ∷ x ∷ s)
  where
    only_zero : Option ℕ → Option ℕ
    only_zero none = none
    only_zero (some n) = if n == 0 then some 0 else none

-- `int(text, 0)`.
unfoldable pub int_base0 : Str → Option ℤ
unfolding signed_by read_literal strip number_space
int_base0 s = signed_by read_literal (strip (number_space s) s)

int_base0_example :
    int_base0 (b' ' ∷ b'0' ∷ b'x' ∷ b'3' ∷ b'0' ∷ b'0' ∷ b'0' ∷ b'\n' ∷ []) ≡ some (pos 12288)
unfolding int_base0
int_base0_example = refl

int_example : int (b'-' ∷ b'1' ∷ b'_' ∷ b'2' ∷ []) ≡ some (negsuc 11)
unfolding int
int_example = refl

-- A separator is no space of a number in ASCII, neither in a text nor in bytes.
int_separator : int (0x1C ∷ b'5' ∷ []) ≡ none
unfolding int
int_separator = refl

int_bytes_separator : int_bytes (0x1C ∷ b'5' ∷ []) ≡ none
unfolding int_bytes
int_bytes_separator = refl
