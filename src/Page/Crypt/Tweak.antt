-- ===== src/Page/Crypt/Tweak.antt =====
-- `tweak_val`, and the address as 16 bytes, the lowest first.
use pedge.Prelude.{
  All, ℕ, zero, suc, ◌-◌, ◌*◌, ◌/◌, ◌%◌, ◌^◌, ◌≤◌, ◌<◌, ◌≡◌, ◌∙◌, refl, sym, ap, ap₂, arith, List,
  [], ◌∷◌, ◌++◌, reverse, ltb, ◌==◌, pos, length, length-append, replicate, if◌then◌else◌,
  Bool-cases, inl, inr, append_assoc, false,
}
use mathlib.Core.List.{reverse-append}
use native.Mathlib.Nat.{pow-suc}
use pedge.Exceptions.{ok}
use pedge.Python.Bytes.{Bytes, Str}
use pedge.Python.Hex.{hex, hexlify, unhex, hex_digit, hex_digits, hex_digits_fuel}
use pedge.Python.Hex.Laws.{unhex-hexlify}
use pedge.Python.Struct.{le_bytes}
use pedge.Page.Crypt.{hex_bytes, join, reverse_hexbytes, tweak_val}

-- More fuel than digits changes nothing.
hex_digits_fuel_enough : (f g n : ℕ) → n < f → n < g → hex_digits_fuel f n ≡ hex_digits_fuel g n
unfolding hex_digits_fuel
hex_digits_fuel_enough zero g n h k = absurd (omega (arith, h))
hex_digits_fuel_enough (suc f) zero n h k = absurd (omega (arith, k))
hex_digits_fuel_enough (suc f) (suc g) n h k = elim (Bool-cases (ltb n 16)) [
  | inl e ↦ rw e refl
  | inr e ↦ rw e (
      ap (λ (s : Str). s ++ (hex_digit (n % 16) ∷ []))
        (hex_digits_fuel_enough f g (n / 16) (ground (arith, e)) (ground (arith, e))))
]

hex_digits_small : (n : ℕ) → n < 16 → hex_digits n ≡ hex_digit n ∷ []
unfolding hex_digits hex_digits_fuel
hex_digits_small n h = ground (arith, h)

hex_digits_step : (n : ℕ) → 16 ≤ n → hex_digits n ≡ hex_digits (n / 16) ++ (hex_digit (n % 16) ∷ [])
unfolding hex_digits hex_digits_fuel
hex_digits_step n h =
    let large : ltb n 16 ≡ false = ground (arith, h) in
    rw large (
      ap (λ (s : Str). s ++ (hex_digit (n % 16) ∷ []))
        (hex_digits_fuel_enough n (suc (n / 16)) (n / 16) (omega (arith, h)) (omega arith)))

-- The two digits of a byte.
abbrev pair : ℕ → Str
pair b = hex_digit (b / 16) ∷ hex_digit (b % 16) ∷ []

hex_digits_byte : (n : ℕ) → 16 ≤ n → n < 256 → hex_digits n ≡ pair n
hex_digits_byte n h k =
    hex_digits_step n h
    ∙ ap (λ (s : Str). s ++ (hex_digit (n % 16) ∷ []))
        (hex_digits_small (n / 16) (omega (arith, k)))

-- Above a byte, the last two digits are the low byte.
hex_digits-pair : (n : ℕ) → 256 ≤ n → hex_digits n ≡ hex_digits (n / 256) ++ pair (n % 256)
hex_digits-pair n h =
    let high : n / 16 / 16 ≡ n / 256 = omega arith in
    let mid : n / 16 % 16 ≡ n % 256 / 16 = omega arith in
    let low : n % 16 ≡ n % 256 % 16 = omega arith in
    hex_digits_step n (omega (arith, h))
    ∙ ap (λ (s : Str). s ++ (hex_digit (n % 16) ∷ [])) (hex_digits_step (n / 16) (omega (arith, h)))
    ∙ append_assoc (hex_digits (n / 16 / 16)) (hex_digit (n / 16 % 16) ∷ [])
        (hex_digit (n % 16) ∷ [])
    ∙ rw (high, mid, low) refl

-- The digits with a zero before them if they are odd in number.
abbrev even : Str → Str
even s = if length s % 2 == 0 then s else b'0' ∷ s

even-append : (s : Str) (c d : ℕ) → even (s ++ (c ∷ d ∷ [])) ≡ even s ++ (c ∷ d ∷ [])
even-append s c d =
    let parity : (length (s ++ (c ∷ d ∷ [])) % 2 == 0) ≡ (length s % 2 == 0) =
      ap (λ (k : ℕ). k == 0) {x = length (s ++ (c ∷ d ∷ [])) % 2} {y = length s % 2}
        (omega (arith, length-append s (c ∷ d ∷ []))) in
    elim (Bool-cases (length s % 2 == 0)) [
      | inl e ↦ rw (parity, e) refl
      | inr e ↦ rw (parity, e) refl
    ]

length-even : (s : Str) → length (even s) % 2 ≡ 0
length-even s = ground arith

hex_bytes-append :
    (s : Str) (c d : ℕ)
    → length s % 2 ≡ 0
    → hex_bytes (s ++ (c ∷ d ∷ [])) ≡ hex_bytes s ++ ((c ∷ d ∷ []) ∷ [])
unfolding hex_bytes
hex_bytes-append [] c d h = refl
hex_bytes-append (a ∷ []) c d h = absurd (omega (arith, h))
hex_bytes-append (a ∷ b ∷ s) c d h =
    ap (λ (ps : List Str). (a ∷ b ∷ []) ∷ ps) (hex_bytes-append s c d (omega (arith, h)))

reverse_hexbytes-append :
    (s : Str) (c d : ℕ)
    → length s % 2 ≡ 0
    → reverse_hexbytes (s ++ (c ∷ d ∷ [])) ≡ c ∷ d ∷ reverse_hexbytes s
unfolding reverse_hexbytes join
reverse_hexbytes-append s c d h =
    ap (λ (ps : List Str). join (reverse ps)) (hex_bytes-append s c d h)
    ∙ ap join (reverse-append (hex_bytes s) ((c ∷ d ∷ []) ∷ []))

-- The bytes of a number, lowest first, and no more than it has; one more than the fuel suffices.
little : ℕ → ℕ → Bytes
little zero n = n ∷ []
little (suc k) n = let rest = little k (n / 256) in if ltb n 256 then n ∷ [] else n % 256 ∷ rest

reverse_hexbytes_byte : (c d : ℕ) → reverse_hexbytes (c ∷ d ∷ []) ≡ c ∷ d ∷ []
unfolding reverse_hexbytes hex_bytes join
reverse_hexbytes_byte c d = refl

pair_small : (n : ℕ) → n < 16 → pair n ≡ b'0' ∷ hex_digit n ∷ []
unfolding hex_digit
pair_small n h =
    let high : n / 16 ≡ 0 = omega (arith, h) in
    let low : n % 16 ≡ n = omega (arith, h) in rw (high, low) refl

even_byte : (n : ℕ) → n < 256 → even (hex_digits n) ≡ pair n
even_byte n h = elim (Bool-cases (ltb n 16)) [
  | inl e ↦
      ap even (hex_digits_small n (ground (arith, e))) ∙ sym (pair_small n (ground (arith, e)))
  | inr e ↦ ap even (hex_digits_byte n (ground (arith, e)) h)
]

reverse_hexbytes_small :
    (n : ℕ) → n < 256 → reverse_hexbytes (even (hex_digits n)) ≡ hexlify (n ∷ [])
unfolding hexlify
reverse_hexbytes_small n h =
    ap reverse_hexbytes (even_byte n h)
    ∙ reverse_hexbytes_byte (hex_digit (n / 16)) (hex_digit (n % 16))

reverse_hexbytes-little :
    (k n : ℕ) → n < 256 ^ suc k → reverse_hexbytes (even (hex_digits n)) ≡ hexlify (little k n)
unfolding little hexlify
reverse_hexbytes-little zero n h = reverse_hexbytes_small n (omega (arith, pow-suc 256 zero, h))
reverse_hexbytes-little (suc k) n h = elim (Bool-cases (ltb n 256)) [
  | inl e ↦ rw e (reverse_hexbytes_small n (ground (arith, e)))
  | inr e ↦ rw e (
      ap (λ (s : Str). reverse_hexbytes (even s)) (hex_digits-pair n (ground (arith, e)))
      ∙ ap reverse_hexbytes
          (even-append (hex_digits (n / 256)) (hex_digit (n % 256 / 16)) (hex_digit (n % 256 % 16)))
      ∙ reverse_hexbytes-append (even (hex_digits (n / 256))) (hex_digit (n % 256 / 16))
          (hex_digit (n % 256 % 16)) (length-even (hex_digits (n / 256)))
      ∙ ap (λ (s : Str). hex_digit (n % 256 / 16) ∷ hex_digit (n % 256 % 16) ∷ s)
          (reverse_hexbytes-little k (n / 256) (omega (arith, pow-suc 256 (suc k), h))))
]

replicate_two : (k : ℕ) → replicate {A = ℕ} (2 * suc k) b'0' ≡ b'0' ∷ b'0' ∷ replicate (2 * k) b'0'
replicate_two k =
    ap (λ (m : ℕ). replicate {A = ℕ} m b'0') {x = 2 * suc k} {y = suc (suc (2 * k))} (omega arith)

hexlify_zeros : (k : ℕ) → hexlify (le_bytes k 0) ≡ replicate (2 * k) b'0'
unfolding hexlify hex_digit
hexlify_zeros zero = refl
hexlify_zeros (suc k) = ap (λ (s : Str). b'0' ∷ b'0' ∷ s) (hexlify_zeros k) ∙ sym (replicate_two k)

le_bytes_byte : (w n : ℕ) → n < 256 → le_bytes (suc w) n ≡ n ∷ le_bytes w 0
le_bytes_byte w n h =
    ap₂ (λ (b m : ℕ). b ∷ le_bytes w m) {x = n % 256} {y = n} (omega (arith, h)) (omega (arith, h))

-- Filled up with zeros, the bytes of a number are those of its width.
hexlify-little :
    (k n : ℕ)
    → n < 256 ^ suc k
    → hexlify (little k n) ++ replicate (2 * suc k - length (hexlify (little k n))) b'0'
      ≡ hexlify (le_bytes (suc k) n)
unfolding little hexlify
hexlify-little zero n h =
    let small : n < 256 = omega (arith, pow-suc 256 zero, h) in
    let same : n % 256 ≡ n = omega (arith, small) in rw same refl
hexlify-little (suc k) n h = elim (Bool-cases (ltb n 256)) [
  | inl e ↦
      let room : 2 * suc (suc k) - 2 ≡ 2 * suc k = omega arith in
      rw (e, room)
        (ap (λ (s : Str). hex_digit (n / 16) ∷ hex_digit (n % 16) ∷ s) (sym (hexlify_zeros (suc k)))
          ∙ ap hexlify (sym (le_bytes_byte (suc k) n (ground (arith, e)))))
  | inr e ↦
      let rest = little k (n / 256) in
      let room : 2 * suc (suc k) - suc (suc (length (hexlify rest)))
          ≡ 2 * suc k - length (hexlify rest) =
        omega arith in
      rw (e, room)
        (ap (λ (s : Str). hex_digit (n % 256 / 16) ∷ hex_digit (n % 256 % 16) ∷ s)
          (hexlify-little k (n / 256) (omega (arith, pow-suc 256 (suc k), h))))
]

le_bytes_small : (w n : ℕ) → All (λ b. b < 256) (le_bytes w n)
le_bytes_small zero n = tt
le_bytes_small (suc w) n = (omega arith, le_bytes_small w (n / 256))

hex_digits_some : (n : ℕ) → 0 < length (hex_digits n)
hex_digits_some n = elim (Bool-cases (ltb n 16)) [
  | inl e ↦ omega (arith, ap length (hex_digits_small n (ground (arith, e))))
  | inr e ↦ omega (
    arith,
    ap length (hex_digits_step n (ground (arith, e))),
    length-append (hex_digits (n / 16)) (hex_digit (n % 16) ∷ []),
  )
]

hex_digits_large : (n : ℕ) → 256 ≤ n → 2 < length (hex_digits n)
hex_digits_large n h = omega (
  arith,
  ap length (hex_digits-pair n h),
  length-append (hex_digits (n / 256)) (pair (n % 256)),
  hex_digits_some (n / 256),
)

-- The two branches of `tweak_val` do the same with two digits or more.
tweak_val-even :
    (n : ℕ)
    → 16 ≤ n
    → tweak_val (pos n)
      ≡ (let s = reverse_hexbytes (even (hex_digits n)) in s ++ replicate (32 - length s) b'0')
unfolding tweak_val hex hexlify
tweak_val-even n h = elim (Bool-cases (ltb 2 (length (hex_digits n)))) [
  | inl e ↦ rw e refl
  | inr e ↦ rw e (elim (Bool-cases (ltb n 256)) [
    | inl small ↦
        ap (λ (s : Str). s ++ replicate (32 - length s) b'0')
          (hex_digits_byte n h (ground (arith, small))
            ∙ sym (reverse_hexbytes_small n (ground (arith, small))))
    | inr large ↦ absurd (ground (arith, e, hex_digits_large n (ground (arith, large))))
  ])
]

-- The tweak of an entry is its address as 16 bytes, the lowest first, for an address of at least 16 and
-- below 256 ^ 16.
pub tweak_val-le_bytes :
    (address : ℕ)
    → 16 ≤ address
    → address < 256 ^ 16
    → unhex (tweak_val (pos address)) ≡ ok (le_bytes 16 address)
tweak_val-le_bytes address h k =
    ap unhex (
      tweak_val-even address h
      ∙ ap (λ (s : Str). s ++ replicate (32 - length s) b'0') (reverse_hexbytes-little 15 address k)
      ∙ hexlify-little 15 address k)
    ∙ unhex-hexlify (le_bytes 16 address) (le_bytes_small 16 address)
