-- ===== src/Python/Slices.antt =====
-- Reading a buffer after a store into it, byte by byte.
use pedge.Prelude.{
  ℕ, ◌+◌, ◌-◌, ◌≤◌, ◌<◌, max, ◌≡◌, ◌∙◌, ◌++◌, ◌≢◌, arith, length, take, drop, get_or, length-take,
  get_or-append_left, get_or-append_right, get_or-take, get_or_ext, length-drop, refl, sym,
  get_or-drop, get_or-set_self, get_or-set_ne,
}
use pedge.Python.Bytes.{Bytes, set_slice, set_item, slice, length-set_slice}
use pedge.Exceptions.{ok}

module _ (xs : Bytes) (start end : ℕ) (v : Bytes) (j : ℕ) (fits : start + length v ≡ end)
    (inside : end ≤ length xs) where
  pub get_or-set_slice_before : j < start → get_or (set_slice xs start end v) j 0 ≡ get_or xs j 0
  unfolding set_slice
  get_or-set_slice_before h =
      get_or-append_left (take start xs) (v ++ drop (max start end) xs) j 0
        (omega (arith, length-take start xs))
      ∙ get_or-take start xs j 0 h

  pub get_or-set_slice_in :
      start ≤ j → j < end → get_or (set_slice xs start end v) j 0 ≡ get_or v (j - start) 0
  unfolding set_slice
  get_or-set_slice_in h k =
      get_or-append_right (take start xs) (v ++ drop (max start end) xs) j (j - start) 0
        (omega (arith, length-take start xs))
      ∙ get_or-append_left v (drop (max start end) xs) (j - start) 0 (omega arith)

  pub get_or-set_slice_after : end ≤ j → get_or (set_slice xs start end v) j 0 ≡ get_or xs j 0
  unfolding set_slice
  get_or-set_slice_after h =
      get_or-append_right (take start xs) (v ++ drop (max start end) xs) j (j - start) 0
        (omega (arith, length-take start xs))
      ∙ get_or-append_right v (drop (max start end) xs) (j - start) (j - end) 0 (omega arith)
      ∙ get_or-drop (max start end) xs (j - end) j 0 (omega arith)

module _ (xs : Bytes) (i v : ℕ) {ys : Bytes} (stored : set_item xs i v ≡ ok ys) where
  pub get_or-set_item_self : get_or ys i 0 ≡ v
  unfolding set_item
  get_or-set_item_self = ground (arith, get_or-set_self xs i v 0)

  pub get_or-set_item_ne : (j : ℕ) → i ≢ j → get_or ys j 0 ≡ get_or xs j 0
  unfolding set_item
  get_or-set_item_ne j ne = ground (arith, get_or-set_ne xs i j v 0)

-- A slice that ends before the store is not changed by it.
pub slice-set_slice_before :
    (xs : Bytes) (a b start end : ℕ) (v : Bytes)
    → a ≤ b
    → b ≤ start
    → start + length v ≡ end
    → end ≤ length xs
    → slice a b (set_slice xs start end v) ≡ slice a b xs
slice-set_slice_before xs a b start end v ab h fits inside =
    let ys = set_slice xs start end v in
    let len : length ys ≡ length xs = length-set_slice xs start end v (omega arith) inside fits in
    let cut = λ (zs : Bytes). length-take (b - a) (drop a zs) in
    get_or_ext 0 (slice a b ys) (slice a b xs)
      (omega (arith, cut ys, cut xs, length-drop a ys, length-drop a xs))
      λ i lt.
        let below : i < b - a = omega (arith, cut ys) in
        get_or-take (b - a) (drop a ys) i 0 below
        ∙ get_or-drop a ys i (a + i) 0 refl
        ∙ get_or-set_slice_before xs start end v (a + i) fits inside (omega arith)
        ∙ sym (get_or-take (b - a) (drop a xs) i 0 below ∙ get_or-drop a xs i (a + i) 0 refl)

-- Nor is a slice that begins after it.
pub slice-set_slice_after :
    (xs : Bytes) (a b start end : ℕ) (v : Bytes)
    → end ≤ a
    → a ≤ b
    → start + length v ≡ end
    → end ≤ length xs
    → slice a b (set_slice xs start end v) ≡ slice a b xs
slice-set_slice_after xs a b start end v h ab fits inside =
    let ys = set_slice xs start end v in
    let len : length ys ≡ length xs = length-set_slice xs start end v (omega arith) inside fits in
    let cut = λ (zs : Bytes). length-take (b - a) (drop a zs) in
    get_or_ext 0 (slice a b ys) (slice a b xs)
      (omega (arith, cut ys, cut xs, length-drop a ys, length-drop a xs))
      λ i lt.
        let below : i < b - a = omega (arith, cut ys) in
        get_or-take (b - a) (drop a ys) i 0 below
        ∙ get_or-drop a ys i (a + i) 0 refl
        ∙ get_or-set_slice_after xs start end v (a + i) fits inside (omega arith)
        ∙ sym (get_or-take (b - a) (drop a xs) i 0 below ∙ get_or-drop a xs i (a + i) 0 refl)

pub length-slice : (a b : ℕ) (xs : Bytes) → b ≤ length xs → length (slice a b xs) ≡ b - a
length-slice a b xs h = omega (arith, length-take (b - a) (drop a xs), length-drop a xs)

-- Two buffers with the same bytes between two places.
pub slice_alike :
    (xs ys : Bytes) (a b : ℕ)
    → b ≤ length xs
    → b ≤ length ys
    → ((j : ℕ) → a ≤ j → j < b → get_or ys j 0 ≡ get_or xs j 0)
    → slice a b ys ≡ slice a b xs
slice_alike xs ys a b hx hy same =
    get_or_ext 0 (slice a b ys) (slice a b xs)
      (length-slice a b ys hy ∙ sym (length-slice a b xs hx))
      λ i lt.
        let below : i < b - a = omega (arith, lt, length-slice a b ys hy) in
        get_or-take (b - a) (drop a ys) i 0 below
        ∙ get_or-drop a ys i (a + i) 0 refl
        ∙ same (a + i) (omega arith) (omega (arith, below))
        ∙ sym (get_or-take (b - a) (drop a xs) i 0 below ∙ get_or-drop a xs i (a + i) 0 refl)
