-- ===== src/Stored/Layout.antt =====
-- Stores into an entry, between what comes before and what follows.
pub mod Number
pub mod Sums
pub mod Chunk
pub mod Text
use pedge.Prelude.{
  ℕ, zero, suc, ◌+◌, ◌-◌, ◌≤◌, ◌<◌, max, ◌^◌, ◌≡◌, ◌∙◌, refl, sym, ap, arith, List, [], ◌∷◌, ◌++◌,
  length, length-append, take, drop, take-append_eq, drop-append_eq, drop-drop, take-all, set,
  replicate, length-replicate, append_assoc, append-nil, ℤ, pos, some, none, Option, ◌≢◌,
}
use mathlib.Core.Path.{subst}
use pedge.Exceptions.{Result, ok, ok-injective, >>=-eq-ok}
use pedge.Python.Bytes.{
  Bytes, Str, slice, set_slice, set_item, erased, zeros, length-zeros, length-erased,
}
use pedge.Python.Struct.{
  Format, unsigned, signed, width, pack, pack_into, le_bytes, length-pack, length-le_bytes,
  pack_into-ok,
}
use pedge.Python.Utf8.{IsAscii, encode, encode_ascii}
use pedge.State.{Encoding, u8, i8, u16, i16, u32, i32, u64, i64, string_encoding}
use pedge.State.ItemType
use pedge.Page.{checksum}
use pedge.Page.Init.{checksum-lt}
use pedge.Page.Shape.{FitsKey}
use pedge.Page.Entry.{set_crc_header, set_key, store_value, set_primitive, primitive_entry}
use pedge.Varlen.Headers.{set_sums, set_span, set_type, varlen_header}
use pedge.Stored.{
  entry_front, entry_back, entry_layout, number_format, number_layout, string_layout,
}

pub set_item-eq-ok : (xs : Bytes) (i v : ℕ) {ys : Bytes} → set_item xs i v ≡ ok ys → ys ≡ set xs i v
unfolding set_item
set_item-eq-ok xs i v e = ground arith

pub pack_into-eq-ok :
    (f : Format) (buffer : Bytes) (offset : ℕ) (v : ℤ) {out : Bytes}
    → pack_into f buffer offset v ≡ ok out
    → (packed : Bytes) × (pack f v ≡ ok packed)
      × (out ≡ set_slice buffer offset (offset + width f) packed)
unfolding pack_into
pack_into-eq-ok f buffer offset v e =
    let (packed, p, h) = >>=-eq-ok (pack f v) _ e in (packed, p, ground arith)

-- A store over `mid`, between `pre` and `post`.
pub set_slice_over :
    (pre mid post v : Bytes) (a b : ℕ)
    → length pre ≡ a
    → a + length mid ≡ b
    → set_slice (pre ++ (mid ++ post)) a b v ≡ pre ++ (v ++ post)
unfolding set_slice
set_slice_over pre mid post v a b e h =
    let whole = pre ++ (mid ++ post) in
    let cut : drop (max a b) whole ≡ post =
      ap (λ k. drop k whole) {x = max a b} {y = a + length mid} (omega arith)
      ∙ sym (drop-drop a (length mid) whole)
      ∙ ap (drop (length mid)) (drop-append_eq a pre (mid ++ post) e)
      ∙ drop-append_eq (length mid) mid post refl in
    rw (take-append_eq a pre (mid ++ post) e, cut) refl

pub replicate-append : (m n : ℕ) (a : ℕ) → replicate (m + n) a ≡ replicate m a ++ replicate n a
replicate-append zero n a = ap (λ k. replicate k a) {x = 0 + n} {y = n} (omega arith)
replicate-append (suc m) n a =
    ap (λ k. replicate k a) {x = suc m + n} {y = suc (m + n)} (omega arith)
    ∙ ap (λ k. a ∷ k) (replicate-append m n a)

-- The first eight bytes of an entry before its checksum is stored.
abbrev pub unsummed : ℕ → ℕ → ℕ → Bytes
unsummed ns code span = ns ∷ code ∷ span ∷ 0xFF ∷ erased 4

pub set_key_lem :
    (ns code span : ℕ) (key : Str)
    → FitsKey key
    → set_key (unsummed ns code span ++ erased 24) key
      ≡ ok (unsummed ns code span ++ entry_back key (erased 8))
unfolding set_key erased zeros
set_key_lem ns code span key fits =
    let front = unsummed ns code span in
    let len = length key in
    let rest = zeros (16 - len) ++ erased 8 in
    let cleared : set_slice (front ++ erased 24) 8 24 (zeros 16) ≡ front ++ (zeros 16 ++ erased 8) =
      unfold set_slice in refl in
    let parts : zeros 16 ++ erased 8 ≡ zeros len ++ rest =
      ap (λ k. replicate k 0 ++ erased 8) {x = 16} {y = len + (16 - len)}
        (omega (arith, fits.short))
      ∙ ap (λ zs. zs ++ erased 8) (replicate-append len (16 - len) 0)
      ∙ append_assoc (zeros len) (zeros (16 - len)) (erased 8) in
    let stored : set_slice (set_slice (front ++ erased 24) 8 24 (zeros 16)) 8 (8 + len) key
        ≡ front ++ entry_back key (erased 8) =
      ap (λ bs. set_slice bs 8 (8 + len) key) (cleared ∙ ap (λ bs. front ++ bs) parts)
      ∙ set_slice_over front (zeros len) rest key 8 (8 + len) refl
          (omega (arith, length-replicate {A = ℕ} len 0)) in
    rw (encode_ascii key fits.ascii) (ap ok stored)

-- The checksum stored in its place, whatever was there.
pub set_crc_header_lem :
    (ns code span chunk s₀ s₁ s₂ s₃ : ℕ) (back : Bytes)
    → length back ≡ 24
    → set_crc_header (ns ∷ code ∷ span ∷ chunk ∷ s₀ ∷ s₁ ∷ s₂ ∷ s₃ ∷ back)
      ≡ ok (
          entry_front ns code span chunk
          ++ (le_bytes 4 (checksum (entry_front ns code span chunk ++ back)) ++ back))
unfolding set_crc_header
set_crc_header_lem ns code span chunk s₀ s₁ s₂ s₃ back len =
    let front = entry_front ns code span chunk in
    let es = ns ∷ code ∷ span ∷ chunk ∷ s₀ ∷ s₁ ∷ s₂ ∷ s₃ ∷ back in
    let sum = checksum (front ++ back) in
    let summed : set_slice (set_slice (b'2' ∷ b'8' ∷ []) 0 4 (slice 0 4 es)) 4 28 (slice 8 32 es)
        ≡ front ++ back =
      unfold set_slice in
      (ap (λ bs. front ++ (bs ++ [])) (take-all 24 back (omega (arith, len)))
        ∙ ap (λ bs. front ++ bs) (append-nil back)) in
    rw summed (
      pack_into-ok 4 es 4 sum (checksum-lt (front ++ back)) (omega (arith, len))
      ∙ ap ok (
          set_slice_over front (s₀ ∷ s₁ ∷ s₂ ∷ s₃ ∷ []) back (le_bytes 4 sum) 4 8 refl
            (omega arith)))

pub length-entry_back :
    (key : Str) (field : Bytes)
    → length key ≤ 16
    → length field ≡ 8
    → length (entry_back key field) ≡ 24
length-entry_back key field short len = omega (
  arith,
  length-append key (zeros (16 - length key) ++ field),
  length-append (zeros (16 - length key)) field,
  length-zeros (16 - length key),
)

-- The value of a number and its type code, over the erased field.
pub store_value_lem :
    (ns span code : ℕ) (key : Str) (w : ℕ) (f : Format) (v : ℤ) {es : Bytes}
    → length key ≤ 16
    → width f ≡ w
    → (rest : Bytes) → erased 8 ≡ erased w ++ rest
    → store_value (unsummed ns 0xFF span ++ entry_back key (erased 8)) code f v ≡ ok es
    → (packed : Bytes) × (pack f v ≡ ok packed)
      × (es ≡ unsummed ns code span ++ entry_back key (packed ++ rest))
unfolding store_value erased
store_value_lem ns span code key w f v {es} short is rest cut e =
    let start = unsummed ns 0xFF span ++ entry_back key (erased 8) in
    let (typed, p, h) = >>=-eq-ok (set_item start 1 code) _ e in
    let (packed, q, out) = pack_into-eq-ok f typed 24 v h in
    let head = unsummed ns code span ++ (key ++ zeros (16 - length key)) in
    let at_head : (field : Bytes) → head ++ field ≡ unsummed ns code span ++ entry_back key field =
      λ field.
        ap (λ bs. unsummed ns code span ++ bs) (append_assoc key (zeros (16 - length key)) field) in
    let typed_is : typed ≡ head ++ (erased w ++ rest) =
      set_item-eq-ok start 1 code p ∙ sym (at_head (erased 8)) ∙ ap (λ bs. head ++ bs) cut in
    (
      packed,
      q,
      out
          ∙ ap (λ bs. set_slice bs 24 (24 + width f) packed) typed_is
          ∙ set_slice_over head (erased w) rest packed 24 (24 + width f)
              (omega (
                arith,
                length-append key (zeros (16 - length key)),
                length-zeros (16 - length key),
              ))
              (omega (arith, length-erased w))
          ∙ at_head (packed ++ rest),
    )
