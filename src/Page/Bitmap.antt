-- ===== src/Page/Bitmap.antt =====
-- The bitmap of a page: what `write_bitmaparray` and the loop of `write_entry_to_buf` leave in it.
use pedge.Prelude.{
  ℕ, zero, suc, ◌+◌, ◌-◌, ◌*◌, ◌/◌, ◌%◌, ◌≤◌, ◌<◌, ◌≡◌, ◌∙◌, ◌⊎◌, inl, inr, refl, sym, ap, ap₂,
  arith, length, get_or, set, length-set, get_or-set_self, get_or-set_ne, lt→ltb,
}
use mathlib.Core.Path.{subst}
use native.Mathlib.Decide.{ℕ_discrete, dec_lt}
use pedge.Exceptions.{ok}
use pedge.Python.Bytes.{Bytes, slice, set_slice, length-set_slice, slice-set_slice}
use pedge.Python.Slices.{get_or-set_slice_before, get_or-set_slice_after}
use pedge.State.{Page}
use pedge.Page.{clear_bit, write_bitmaparray, mark_entries}

-- A byte of the bitmap whose first `m` entries are written: two bits for each, of which the low one
-- is cleared.
abbrev pub marks_byte : ℕ → ℕ
marks_byte zero = 0xFF
marks_byte (suc zero) = 0xFE
marks_byte (suc (suc zero)) = 0xFA
marks_byte (suc (suc (suc zero))) = 0xEA
marks_byte (suc (suc (suc (suc m)))) = 0xAA

-- The bitmap marks the first `n` entries as written and no other.
abbrev pub Marks : ℕ → Bytes → Type 0
Marks n bitmap = (j : ℕ) → j < 32 → get_or bitmap j 0 ≡ marks_byte (n - 4 * j)

-- Clearing the bit of one more entry.
clear_bit-marks_byte : (m : ℕ) → m < 4 → clear_bit (marks_byte m) (m * 2) ≡ marks_byte (suc m)
unfolding clear_bit
clear_bit-marks_byte zero h = refl
clear_bit-marks_byte (suc zero) h = refl
clear_bit-marks_byte (suc (suc zero)) h = refl
clear_bit-marks_byte (suc (suc (suc zero))) h = refl
clear_bit-marks_byte (suc (suc (suc (suc m)))) h = absurd (omega arith)

marks_byte_full : (m n : ℕ) → 4 ≤ m → 4 ≤ n → marks_byte m ≡ marks_byte n
marks_byte_full m n h k = four m h ∙ sym (four n k)
  where
    four : (m : ℕ) → 4 ≤ m → marks_byte m ≡ 0xAA
    four zero h = absurd (omega arith)
    four (suc zero) h = absurd (omega arith)
    four (suc (suc zero)) h = absurd (omega arith)
    four (suc (suc (suc zero))) h = absurd (omega arith)
    four (suc (suc (suc (suc m)))) h = refl

-- The store that `write_bitmaparray` makes for the next entry.
next_bitmap : ℕ → Bytes → Bytes
next_bitmap n bitmap = set bitmap (n * 2 / 8) (clear_bit (get_or bitmap (n * 2 / 8) 0) (n * 2 % 8))

next_bitmap-Marks :
    (n : ℕ) (bitmap : Bytes)
    → n < 128
    → length bitmap ≡ 32
    → Marks n bitmap
    → Marks (suc n) (next_bitmap n bitmap)
unfolding next_bitmap
next_bitmap-Marks n bitmap h len marks j hj = elim (ℕ_discrete (n * 2 / 8) j) [
  | yes e ↦
      ap (λ k. get_or (next_bitmap n bitmap) k 0) {x = j} {y = n * 2 / 8} (sym e)
      ∙ get_or-set_self bitmap (n * 2 / 8) _ 0 (omega arith)
      ∙ ap₂ clear_bit {u = n * 2 % 8} {v = (n - 4 * j) * 2}
          (marks (n * 2 / 8) (omega arith) ∙ ap (λ k. marks_byte (n - 4 * k)) e) (omega arith)
      ∙ clear_bit-marks_byte (n - 4 * j) (omega arith)
      ∙ ap marks_byte {x = suc (n - 4 * j)} {y = suc n - 4 * j} (omega arith)
  | no ne ↦ get_or-set_ne bitmap (n * 2 / 8) j _ 0 ne ∙ marks j hj ∙ elim (dec_lt j (n * 2 / 8)) [
    | yes lt ↦ marks_byte_full (n - 4 * j) (suc n - 4 * j) (omega arith) (omega arith)
    | no ge ↦ ap marks_byte {x = n - 4 * j} {y = suc n - 4 * j} (omega arith)
  ]
]

-- A page in use: its sizes, and the bitmap that tells the written entries, in the object and in
-- the image.
pub record IsValid (p : Page) : Type 0 where
  pub length_buf : length p.page_buf ≡ 4096
  pub length_bitmap : length p.bitmap_array ≡ 32
  pub room : p.entry_num ≤ 126
  pub marks : Marks p.entry_num p.bitmap_array
  pub image : slice 32 64 p.page_buf ≡ p.bitmap_array

-- What marking `count` entries does to a page.
pub record Marked (p : Page) (count : ℕ) (q : Page) : Type 0 where
  pub entries : q.entry_num ≡ p.entry_num + count
  pub valid : IsValid q
  pub version : q.version ≡ p.version
  pub others : (j : ℕ) → (j < 32) ⊎ (64 ≤ j) → get_or q.page_buf j 0 ≡ get_or p.page_buf j 0

abbrev with_bitmap : Page → Bytes → Page
with_bitmap p bitmap = record p {
  bitmap_array = bitmap;
  page_buf = set_slice p.page_buf 32 64 bitmap;
}

abbrev counted : Page → Page
counted p = record p { entry_num = p.entry_num + 1 }

write_bitmaparray-ok :
    (p : Page)
    → IsValid p
    → write_bitmaparray p ≡ ok (with_bitmap p (next_bitmap p.entry_num p.bitmap_array))
unfolding write_bitmaparray next_bitmap
write_bitmaparray-ok p v = rw (lt→ltb (p.entry_num * 2 / 8) (length p.bitmap_array) (omega arith))

length-next_bitmap : (n : ℕ) (bitmap : Bytes) → length (next_bitmap n bitmap) ≡ length bitmap
unfolding next_bitmap
length-next_bitmap n bitmap = length-set bitmap (n * 2 / 8) _

counted-Marked :
    (p : Page)
    → IsValid p
    → p.entry_num < 126
    → Marked p 1 (counted (with_bitmap p (next_bitmap p.entry_num p.bitmap_array)))
counted-Marked p v h =
    let bitmap = next_bitmap p.entry_num p.bitmap_array in
    let len : length bitmap ≡ 32 =
      length-next_bitmap p.entry_num p.bitmap_array ∙ v.length_bitmap in
    record {
      entries = refl;
      valid = record {
        length_buf =
            length-set_slice p.page_buf 32 64 bitmap (omega arith) (omega arith) (omega arith)
            ∙ v.length_buf;
        length_bitmap = len;
        room = omega arith;
        marks =
            subst (λ k. Marks k bitmap) {x = suc p.entry_num} {y = p.entry_num + 1} (omega arith)
              (next_bitmap-Marks p.entry_num p.bitmap_array (omega arith) v.length_bitmap v.marks);
        image = slice-set_slice p.page_buf 32 64 bitmap (omega arith) (omega arith);
      };
      version = refl;
      others = λ j side. elim side [
        | inl before ↦
            get_or-set_slice_before p.page_buf 32 64 bitmap j (omega arith) (omega arith) before
        | inr after ↦
            get_or-set_slice_after p.page_buf 32 64 bitmap j (omega arith) (omega arith) after
      ];
    }

Marked-trans : {p q r : Page} {m n : ℕ} → Marked p m q → Marked q n r → Marked p (m + n) r
Marked-trans a b = record {
  entries = omega (arith, a.entries, b.entries);
  valid = b.valid;
  version = b.version ∙ a.version;
  others = λ j side. b.others j side ∙ a.others j side;
}

-- On a valid page that has room for the entries the loop raises nothing, counts them, leaves a valid
-- page, whose bitmap marks the entries counted, and changes no byte outside the bitmap.
pub mark_entries-Marked :
    (count : ℕ) (p : Page)
    → IsValid p
    → p.entry_num + count ≤ 126
    → (q : Page) × (mark_entries count p ≡ ok q) × Marked p count q
unfolding mark_entries
mark_entries-Marked zero p v h =
    (p, refl, record { entries = omega arith; valid = v; version = refl; others = λ j side. refl })
mark_entries-Marked (suc count) p v h =
    let next = counted (with_bitmap p (next_bitmap p.entry_num p.bitmap_array)) in
    let one = counted-Marked p v (omega arith) in
    let (q, e, rest) = mark_entries-Marked count next one.valid (omega arith) in
    (
      q,
      rw (write_bitmaparray-ok p v) e,
      subst (λ k. Marked p k q) {x = 1 + count} {y = suc count} (omega arith)
          (Marked-trans one rest),
    )
