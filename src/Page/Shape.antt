-- ===== src/Page/Shape.antt =====
-- The lengths of the entries that the methods build.
use pedge.Prelude.{ℕ, ◌+◌, ◌≤◌, ◌≡◌, ◌∙◌, arith, length, ℤ}
use pedge.Exceptions.{ok, >>=-eq-ok}
use pedge.Python.Bytes.{
  Bytes, Str, set_slice, set_item, erased, zeros, length-set_slice, length-set_item, length-erased,
  length-zeros,
}
use pedge.Python.Struct.{Format, unsigned, signed, length-pack_into}
use pedge.Python.Utf8.{IsAscii, encode, encode_ascii}
use pedge.State.{Encoding, u8, i8, u16, i16, u32, i32, u64, i64}
use pedge.Page.Entry.{set_crc_header, set_key, store_value, set_primitive, primitive_entry}

-- A key that takes its 16 bytes at most.
pub record FitsKey (key : Str) : Type 0 where
  pub ascii : IsAscii key
  pub short : length key ≤ 16

pub length-set_crc_header :
    (es : Bytes) {out : Bytes} → set_crc_header es ≡ ok out → length out ≡ length es
unfolding set_crc_header
length-set_crc_header es h = length-pack_into (unsigned 4) es 4 _ h

pub length-set_key :
    (es : Bytes) (key : Str) {out : Bytes}
    → FitsKey key
    → length es ≡ 32
    → set_key es key ≡ ok out
    → length out ≡ 32
unfolding set_key
length-set_key es key fits len h =
    let (key_bytes, p, h₁) = >>=-eq-ok (encode key) _ h in
    ground (
      arith,
      encode_ascii key fits.ascii,
      length-set_slice es 8 24 (zeros 16),
      length-zeros 16,
      length-set_slice (set_slice es 8 24 (zeros 16)) 8 (8 + length key) key_bytes,
    )

length-store_value :
    (es : Bytes) (code : ℕ) (f : Format) (v : ℤ) {out : Bytes}
    → store_value es code f v ≡ ok out
    → length out ≡ length es
unfolding store_value
length-store_value es code f v h =
    let (typed, p, h₁) = >>=-eq-ok (set_item es 1 code) _ h in
    length-pack_into f typed 24 v h₁ ∙ length-set_item es 1 code p

length-set_primitive :
    (es : Bytes) (encoding : Encoding) (v : ℤ) {out : Bytes}
    → set_primitive es encoding v ≡ ok out
    → length out ≡ length es
unfolding set_primitive
length-set_primitive es u8 v h = length-store_value es _ (unsigned 1) v h
length-set_primitive es i8 v h = length-store_value es _ (signed 1) v h
length-set_primitive es u16 v h = length-store_value es _ (unsigned 2) v h
length-set_primitive es i16 v h = length-store_value es _ (signed 2) v h
length-set_primitive es u32 v h = length-store_value es _ (unsigned 4) v h
length-set_primitive es i32 v h = length-store_value es _ (signed 4) v h
length-set_primitive es u64 v h = length-store_value es _ (unsigned 8) v h
length-set_primitive es i64 v h = length-store_value es _ (signed 8) v h
length-set_primitive es _ v h = ground arith

pub length-primitive_entry :
    (key : Str) (v : ℤ) (encoding : Encoding) (ns_index : ℕ) {out : Bytes}
    → FitsKey key
    → primitive_entry key v encoding ns_index ≡ ok out
    → length out ≡ 32
unfolding primitive_entry
length-primitive_entry key v encoding ns_index fits h =
    let (e₁, p₁, h₁) = >>=-eq-ok (set_item (erased 32) 0 ns_index) _ h in
    let (e₂, p₂, h₂) = >>=-eq-ok (set_item e₁ 2 0x01) _ h₁ in
    let (e₃, p₃, h₃) = >>=-eq-ok (set_item e₂ 3 0xFF) _ h₂ in
    let (e₄, p₄, h₄) = >>=-eq-ok (set_key e₃ key) _ h₃ in
    let (e₅, p₅, h₅) = >>=-eq-ok (set_primitive e₄ encoding v) _ h₄ in
    let len₃ : length e₃ ≡ 32 =
      length-set_item e₂ 3 0xFF p₃
      ∙ length-set_item e₁ 2 0x01 p₂
      ∙ length-set_item (erased 32) 0 ns_index p₁
      ∙ length-erased 32 in
    length-set_crc_header e₅ h₅
    ∙ length-set_primitive e₄ encoding v p₅
    ∙ length-set_key e₃ key fits len₃ p₄
