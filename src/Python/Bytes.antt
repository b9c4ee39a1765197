-- ===== src/Python/Bytes.antt =====
-- `bytes`, `bytearray` and `str` as lists of numbers, and their slices.
use pedge.Prelude.{
  ℕ, ◌+◌, ◌-◌, ◌≤◌, max, ◌≡◌, ◌∙◌, ap, List, ◌++◌, arith, length, take, drop, set, ltb,
  if◌then◌else◌, length-append, length-take, length-drop, replicate, length-replicate, length-set,
  append-nil, take-append_eq, drop-append_eq, take-all, drop-all,
}
use pedge.Exceptions.{Result, ok, err, value_error, index_error}

abbrev pub Bytes : Type 0
Bytes = List ℕ

-- A text as its code points.
abbrev pub Str : Type 0
Str = List ℕ

-- `xs[start:end]`.
abbrev pub slice : ℕ → ℕ → Bytes → Bytes
slice start end xs = take (end - start) (drop start xs)

-- `xs[start:end] = v`: what follows moves, bounds past the end stand for the end, and an end before
-- the start stands for the start.
unfoldable pub set_slice : Bytes → ℕ → ℕ → Bytes → Bytes
set_slice xs start end v = take start xs ++ (v ++ drop (max start end) xs)

-- `xs[i] = v` on a `bytearray`.
unfoldable pub set_item : Bytes → ℕ → ℕ → Result Bytes
set_item xs i v =
    if ltb v 256
    then (if ltb i (length xs) then ok (set xs i v) else err index_error)
    else err value_error

pub length-set_slice :
    (xs : Bytes) (start end : ℕ) (v : Bytes)
    → start ≤ end
    → end ≤ length xs
    → start + length v ≡ end
    → length (set_slice xs start end v) ≡ length xs
unfolding set_slice
length-set_slice xs start end v h k e = omega (
  arith,
  length-append (take start xs) (v ++ drop (max start end) xs),
  length-append v (drop (max start end) xs),
  length-take start xs,
  length-drop (max start end) xs,
)

-- A slice that was just written reads back.
pub slice-set_slice :
    (xs : Bytes) (start end : ℕ) (v : Bytes)
    → start + length v ≡ end
    → start ≤ length xs
    → slice start end (set_slice xs start end v) ≡ v
unfolding set_slice
slice-set_slice xs start end v e h =
    ap (take (end - start)) (
      drop-append_eq start (take start xs) (v ++ drop (max start end) xs)
        (omega (arith, length-take start xs)))
    ∙ take-append_eq (end - start) v (drop (max start end) xs) (omega arith)

-- Bytes stored past the end are appended.
pub set_slice_append :
    (xs : Bytes) (start end : ℕ) (v : Bytes)
    → length xs ≤ start
    → set_slice xs start end v ≡ xs ++ v
unfolding set_slice
set_slice_append xs start end v h =
    rw (take-all start xs h, drop-all (max start end) xs (omega arith), append-nil)

pub length-set_item :
    (xs : Bytes) (i v : ℕ) {ys : Bytes} → set_item xs i v ≡ ok ys → length ys ≡ length xs
unfolding set_item
length-set_item xs i v e = ground (arith, length-set xs i v)

-- `bytearray(b'\xff') * n`, as in erased flash.
unfoldable pub erased : ℕ → Bytes
erased n = replicate n 0xFF

-- `b'\x00' * n`.
unfoldable pub zeros : ℕ → Bytes
zeros n = replicate n 0

pub length-erased : (n : ℕ) → length (erased n) ≡ n
unfolding erased
length-erased n = length-replicate n 0xFF

pub length-zeros : (n : ℕ) → length (zeros n) ≡ n
unfolding zeros
length-zeros n = length-replicate n 0
