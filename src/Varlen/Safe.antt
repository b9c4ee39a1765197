-- ===== src/Varlen/Safe.antt =====
-- What the variable-length methods write on their page, for ASCII keys and text values.
use pedge.Prelude.{
  ℕ, zero, suc, ◌+◌, ◌-◌, ◌*◌, ◌≤◌, ◌≡◌, ◌∙◌, sym, ap, arith, length, [], ◌∷◌, take, drop,
  length-take, set, length-set,
}
use mathlib.Core.Path.{subst}
use pedge.Exceptions.{ok, ok-injective, >>=-eq-ok}
use pedge.Python.Bytes.{
  Bytes, Str, set_slice, set_item, erased, length-set_item, length-set_slice, length-erased,
}
use pedge.Python.Struct.{unsigned, pack_into, length-pack_into}
use pedge.Python.Utf8.{IsAscii, encode_ascii}
use pedge.Cipher.{XtsAes, IsXtsAes}
use pedge.State.{Page, Nvs, Value, text, binary, bytearray, bytes, Encoding}
use pedge.Page.Bitmap.{IsValid}
use pedge.Page.Write.{write_entry_to_buf-eq-ok}
use pedge.Page.Entry.{write_entry_to_buf, set_key}
use pedge.Page.Shape.{FitsKey, length-set_key, length-set_crc_header}
use pedge.Nvs.Reach.{Written, unwritten, then_wrote}
use pedge.Varlen.Headers.{
  entries_for, value_length, slice_value, to_bytes, set_sums, chunk_header, index_entry, set_span,
  set_type, varlen_header, write_both, write_chunk, write_index, write_single_page_entry,
}

-- A value that is as long in bytes as `len` says.
abbrev pub FitsValue : Value → Type 0
FitsValue (text s) = IsAscii s
FitsValue (binary bs) = Unit

IsAscii-take : (n : ℕ) (s : Str) → IsAscii s → IsAscii (take n s)
IsAscii-take zero s h = tt
IsAscii-take (suc n) [] h = tt
IsAscii-take (suc n) (c ∷ s) h = (h.0, IsAscii-take n s h.1)

IsAscii-drop : (n : ℕ) (s : Str) → IsAscii s → IsAscii (drop n s)
IsAscii-drop zero s h = h
IsAscii-drop (suc n) [] h = tt
IsAscii-drop (suc n) (c ∷ s) h = IsAscii-drop n s h.1

pub slice_value-FitsValue : (a b : ℕ) (v : Value) → FitsValue v → FitsValue (slice_value a b v)
slice_value-FitsValue a b (text s) h = IsAscii-take (b - a) (drop a s) (IsAscii-drop a s h)
slice_value-FitsValue a b (binary bs) h = tt

pub length-to_bytes :
    (v : Value) {bs : Bytes} → FitsValue v → to_bytes v ≡ ok bs → length bs ≡ value_length v
unfolding to_bytes
length-to_bytes (text s) h e = ground (arith, encode_ascii s h)
length-to_bytes (binary bs) h e = ground arith

pub value_length-slice_value : (a k : ℕ) (v : Value) → value_length (slice_value a (a + k) v) ≤ k
value_length-slice_value a k (text s) = omega (arith, length-take (a + k - a) (drop a s))
value_length-slice_value a k (binary s) = omega (arith, length-take (a + k - a) (drop a s))

pub length-set_sums :
    (es : Bytes) (size : ℕ) (payload : Bytes) {out : Bytes}
    → set_sums es size payload ≡ ok out
    → length out ≡ length es
unfolding set_sums
length-set_sums es size payload h =
    let (e₁, p₁, h₁) = >>=-eq-ok (pack_into (unsigned 2) es 24 _) _ h in
    let (e₂, p₂, h₂) = >>=-eq-ok (pack_into (unsigned 4) e₁ 28 _) _ h₁ in
    length-set_crc_header e₂ h₂
    ∙ length-pack_into (unsigned 4) e₁ 28 _ p₂
    ∙ length-pack_into (unsigned 2) es 24 _ p₁

pub length-chunk_header :
    (es : Bytes) (index size : ℕ) (payload : Bytes) {out : Bytes}
    → chunk_header es index size payload ≡ ok out
    → length out ≡ length es
unfolding chunk_header
length-chunk_header es index size payload h =
    let (e₁, p₁, h₁) = >>=-eq-ok (set_item es 1 _) _ h in
    let (e₂, p₂, h₂) = >>=-eq-ok (set_item e₁ 2 _) _ h₁ in
    let (e₃, p₃, h₃) = >>=-eq-ok (set_item e₂ 3 index) _ h₂ in
    length-set_sums e₃ size payload h₃
    ∙ length-set_item e₂ 3 index p₃
    ∙ length-set_item e₁ 2 _ p₂
    ∙ length-set_item es 1 _ p₁

pub length-index_entry :
    (es : Bytes) (size count : ℕ) {out : Bytes}
    → length es ≡ 32
    → index_entry es size count ≡ ok out
    → length out ≡ 32
unfolding index_entry
length-index_entry es size count len h =
    let start = set_slice es 24 32 (erased 8) in
    let (e₁, p₁, h₁) = >>=-eq-ok (set_item start 1 _) _ h in
    let (e₂, p₂, h₂) = >>=-eq-ok (set_item e₁ 2 1) _ h₁ in
    let (e₃, p₃, h₃) = >>=-eq-ok (set_item e₂ 3 _) _ h₂ in
    let (e₄, p₄, h₄) = >>=-eq-ok (pack_into (unsigned 4) e₃ 24 _) _ h₃ in
    let (e₅, p₅, h₅) = >>=-eq-ok (set_item e₄ 28 count) _ h₄ in
    let (e₆, p₆, h₆) = >>=-eq-ok (set_item e₅ 29 0) _ h₅ in
    length-set_crc_header e₆ h₆
    ∙ length-set_item e₅ 29 0 p₆
    ∙ length-set_item e₄ 28 count p₅
    ∙ length-pack_into (unsigned 4) e₃ 24 _ p₄
    ∙ length-set_item e₂ 3 _ p₃
    ∙ length-set_item e₁ 2 1 p₂
    ∙ length-set_item start 1 _ p₁
    ∙ length-set_slice es 24 32 (erased 8) (omega arith) (omega arith)
        (omega (arith, length-erased 8))
    ∙ len

length-set_span :
    (version count : ℕ) (encoding : Encoding) (es : Bytes) {out : Bytes}
    → set_span version count encoding es ≡ ok out
    → length out ≡ length es
unfolding set_span set_item
length-set_span version count encoding es h = ground (
  arith,
  length-set es 2 (count + 1),
  length-set es 3 0xFF,
  length-set (set es 2 (count + 1)) 3 0xFF,
)

length-set_type :
    (encoding : Encoding) (es : Bytes) {out : Bytes}
    → set_type encoding es ≡ ok out
    → length out ≡ length es
unfolding set_type set_item
length-set_type encoding es h = ground (arith, length-set es 1 0x21, length-set es 1 0x41)

pub length-varlen_header :
    (version : ℕ) (key : Str) (count : ℕ) (encoding : Encoding) (ns_index : ℕ) {out : Bytes}
    → FitsKey key
    → varlen_header version key count encoding ns_index ≡ ok out
    → length out ≡ 32
unfolding varlen_header
length-varlen_header version key count encoding ns_index fits h =
    let (e₁, p₁, h₁) = >>=-eq-ok (set_item (erased 32) 0 ns_index) _ h in
    let (e₂, p₂, h₂) = >>=-eq-ok (set_span version count encoding e₁) _ h₁ in
    let (e₃, p₃, h₃) = >>=-eq-ok (set_key e₂ key) _ h₂ in
    length-set_type encoding e₃ h₃
    ∙ length-set_key e₂ key fits
        (length-set_span version count encoding e₁ p₂
          ∙ length-set_item (erased 32) 0 ns_index p₁
          ∙ length-erased 32)
        p₃

module _ (xts : XtsAes) (laws : IsXtsAes xts) (nvs : Nvs) where
  -- A header and its data, on a page with room for both.
  pub write_both-Written :
      (p : Page) (es payload : Bytes) (count : ℕ) {q : Page}
      → IsValid p
      → p.entry_num + 1 + count ≤ 126
      → length es ≡ 32
      → length payload ≤ 32 * count
      → write_both xts nvs p es payload count ≡ ok q
      → Written p q × (q.entry_num ≡ p.entry_num + 1 + count)
  unfolding write_both
  write_both-Written p es payload count v room len fits h =
      let (m, p₁, h₁) = >>=-eq-ok (write_entry_to_buf xts nvs p (bytearray es) 1) _ h in
      let (o₁, s₁, w₁) =
        write_entry_to_buf-eq-ok xts nvs p (bytearray es) 1 laws v (omega arith) (omega arith) p₁ in
      let (o₂, s₂, w₂) =
        write_entry_to_buf-eq-ok xts nvs m (bytes payload) count laws w₁.valid
          (omega (arith, w₁.entries)) fits h₁ in
      (then_wrote (then_wrote unwritten w₁) w₂, omega (arith, w₁.entries, w₂.entries))

  -- A chunk of data, on a page with room for it and its header.
  pub write_chunk-Written :
      (p : Page) (es : Bytes) (index : ℕ) (v : Value) (size : ℕ) {es' : Bytes} {q : Page}
      → IsValid p
      → p.entry_num + 1 + entries_for size ≤ 126
      → length es ≡ 32
      → FitsValue v
      → value_length v ≤ size
      → write_chunk xts es index v size nvs p ≡ ok (es', q)
      → Written p q × (q.entry_num ≡ p.entry_num + 1 + entries_for size) × (length es' ≡ 32)
  unfolding write_chunk
  write_chunk-Written p es index v size valid room len fits small h =
      let (payload, p₁, h₁) = >>=-eq-ok (to_bytes v) _ h in
      let (es₁, p₂, h₂) = >>=-eq-ok (chunk_header es index size payload) _ h₁ in
      let (q₁, p₃, h₃) = >>=-eq-ok (write_both xts nvs p es₁ payload (entries_for size)) _ h₂ in
      let len₁ : length es₁ ≡ 32 = length-chunk_header es index size payload p₂ ∙ len in
      let (w, e) =
        write_both-Written p es₁ payload (entries_for size) valid room len₁
          (omega (arith, length-to_bytes v fits p₁)) p₃ in
      let e₃ = ok-injective h₃ in
      (
        subst (λ (r : Page). Written p r) (ap (λ (r : Bytes × Page). r.1) e₃) w,
        ap (λ (r : Bytes × Page). r.1.entry_num) (sym e₃) ∙ e,
        ap (λ (r : Bytes × Page). length r.0) (sym e₃) ∙ len₁,
      )

  -- The index, on a page with a slot for it.
  pub write_index-Written :
      (p : Page) (es : Bytes) (size count : ℕ) {done : Unit {0} × Page}
      → length es ≡ 32
      → IsValid p
      → p.entry_num + 1 ≤ 126
      → write_index xts es size count nvs p ≡ ok done
      → Unit {0} × Written p done.1
  unfolding write_index
  write_index-Written p es size count len valid room h =
      let (es₁, p₁, h₁) = >>=-eq-ok (index_entry es size count) _ h in
      let (q, p₂, h₂) = >>=-eq-ok (write_entry_to_buf xts nvs p (bytearray es₁) 1) _ h₁ in
      let (out, stored, w) =
        write_entry_to_buf-eq-ok xts nvs p (bytearray es₁) 1 laws valid room
          (omega (arith, length-index_entry es size count len p₁)) p₂ in
      (
        tt,
        subst (λ (r : Unit {0} × Page). Written p r.1) (ok-injective h₂) (then_wrote unwritten w),
      )

  -- A header and its data in one page, with room for both.
  pub write_single_page_entry-Written :
      (p : Page) (es : Bytes) (v : Value) (count : ℕ) {done : Unit {0} × Page}
      → length es ≡ 32
      → FitsValue v
      → IsValid p
      → p.entry_num + 1 + count ≤ 126
      → value_length v ≤ 32 * count
      → write_single_page_entry xts es v (value_length v) count nvs p ≡ ok done
      → Unit {0} × Written p done.1
  unfolding write_single_page_entry
  write_single_page_entry-Written p es v count len fits valid room small h =
      let (payload, p₁, h₁) = >>=-eq-ok (to_bytes v) _ h in
      let (es₁, p₂, h₂) = >>=-eq-ok (set_sums es (value_length v) payload) _ h₁ in
      let (q, p₃, h₃) = >>=-eq-ok (write_both xts nvs p es₁ payload count) _ h₂ in
      let (w, e) =
        write_both-Written p es₁ payload count valid room
          (length-set_sums es (value_length v) payload p₂ ∙ len)
          (omega (arith, length-to_bytes v fits p₁)) p₃ in
      (tt, subst (λ (r : Unit {0} × Page). Written p r.1) (ok-injective h₃) w)
