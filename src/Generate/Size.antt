-- ===== src/Generate/Size.antt =====
-- `check_size`: which texts are sizes, and how each other text ends the program.
use pedge.Prelude.{
  ℕ, ◌+◌, ◌-◌, ◌*◌, ◌/◌, ◌%◌, ◌≤◌, ◌≡◌, ◌≢◌, ◌⊎◌, inl, inr, refl, ap, arith, Option, none, some, ℤ,
  pos, negsuc,
}
use pedge.Exceptions.{Result, ok, err, or_raise, system_exit, success, failure, ◌>>=◌}
use pedge.Python.Bytes.{Str}
use pedge.Python.Number.{int_base0}
use pedge.Generate.{check_size, check_number}
use native.Mathlib.Decide.{ℕ_discrete, dec_lt}

-- What `check_size` answers for the number that a text spells: the whole pages but one of a size
-- of three pages or more, and an exit for any other.
abbrev pub Answer : Option ℤ → Result ℤ → Type 0
Answer none r = r ≡ err (system_exit success)
Answer (some z) r =
    ((k : ℕ) × (2 ≤ k) × (z ≡ pos (4096 * (k + 1))) × (r ≡ ok (pos (4096 * k))))
    ⊎ (((k : ℕ) → 2 ≤ k → z ≢ pos (4096 * (k + 1))) × (r ≡ err (system_exit failure)))

pos-injective : {m n : ℕ} → pos m ≡ pos n → m ≡ n
pos-injective e = cc

check_number_pos : (n : ℕ) → Answer (some (pos n)) (check_number (pos n))
unfolding check_number
check_number_pos n = elim (ℕ_discrete (n % 4096) 0) [
  | yes whole ↦ elim (dec_lt n 12288) [
    | yes few ↦ inr (λ k h e. omega (arith, pos-injective e), ground arith)
    | no enough ↦ inl (n / 4096 - 1, omega arith, ap pos (omega arith), ground arith)
  ]
  | no rest ↦ inr (λ k h e. rest (omega (arith, pos-injective e)), ground arith)
]

check_number_neg : (n : ℕ) → check_number (negsuc n) ≡ err (system_exit failure)
unfolding check_number
check_number_neg n = ground arith

-- A text that is no number exits with status 0; a number of three or more whole pages gives the
-- size without one page; every other number exits with a message.
pub check_size-Answer : (s : Str) → Answer (int_base0 s) (check_size s)
unfolding check_size
check_size-Answer s = split (int_base0 s)
  where
    split : (o : Option ℤ) → Answer o (or_raise o (system_exit success) >>= check_number)
    split none = refl
    split (some (pos n)) = check_number_pos n
    split (some (negsuc n)) = inr (λ k h. λ e. cc, check_number_neg n)
