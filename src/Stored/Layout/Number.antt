-- ===== src/Stored/Layout/Number.antt =====
-- The entry of a number has the layout of the format.
use pedge.Prelude.{
  ℕ, ◌+◌, ◌-◌, ◌≤◌, ◌≡◌, ◌∙◌, refl, sym, ap, arith, ◌++◌, length, length-append, set, ℤ, some, none,
  Option, ◌≢◌,
}
use mathlib.Core.Path.{subst}
use pedge.Exceptions.{ok, ok-injective, >>=-eq-ok}
use pedge.Python.Bytes.{Bytes, Str, set_item, erased, length-erased}
use pedge.Python.Struct.{Format, width, pack, length-pack}
use pedge.State.{Encoding, u8, i8, u16, i16, u32, i32, u64, i64}
use pedge.Page.Shape.{FitsKey}
use pedge.Page.Entry.{set_crc_header, set_key, store_value, set_primitive, primitive_entry}
use pedge.Stored.{entry_back, number_format, number_layout}
use pedge.Stored.Layout.{
  unsummed, set_item-eq-ok, replicate-append, set_key_lem, set_crc_header_lem, length-entry_back,
  store_value_lem,
}

-- The bytes of a number in the format, before the checksum.
abbrev Packed : ℕ → Str → ℤ → Bytes → Option (ℕ × Format) → Type 0
Packed ns key v es none = ⊥
Packed ns key v es (some (code, f)) =
    (packed : Bytes) × (pack f v ≡ ok packed)
    × (es ≡ unsummed ns code 1 ++ entry_back key (packed ++ erased (8 - length packed)))

number_value_lem :
    (ns code : ℕ) (key : Str) (w k : ℕ) (f : Format) (v : ℤ) {es : Bytes}
    → length key ≤ 16
    → width f ≡ w
    → w + k ≡ 8
    → store_value (unsummed ns 0xFF 1 ++ entry_back key (erased 8)) code f v ≡ ok es
    → Packed ns key v es (some (code, f))
number_value_lem ns code key w k f v {es} short is whole e =
    let cut : erased 8 ≡ erased w ++ erased k =
      ap erased (sym whole) ∙ unfold erased in replicate-append w k 0xFF in
    let (packed, p, out) = store_value_lem ns 1 code key w f v short is (erased k) cut e in
    let rest : k ≡ 8 - length packed = omega (arith, length-pack f v p) in
    (
      packed,
      p,
      subst (λ j. es ≡ unsummed ns code 1 ++ entry_back key (packed ++ erased j)) rest out,
    )

set_primitive_lem :
    (ns : ℕ) (key : Str) (encoding : Encoding) (v : ℤ) {es : Bytes}
    → length key ≤ 16
    → number_format encoding ≢ none
    → set_primitive (unsummed ns 0xFF 1 ++ entry_back key (erased 8)) encoding v ≡ ok es
    → Packed ns key v es (number_format encoding)
unfolding set_primitive
set_primitive_lem ns key u8 v h is e = number_value_lem ns _ key 1 7 _ v h refl (omega arith) e
set_primitive_lem ns key i8 v h is e = number_value_lem ns _ key 1 7 _ v h refl (omega arith) e
set_primitive_lem ns key u16 v h is e = number_value_lem ns _ key 2 6 _ v h refl (omega arith) e
set_primitive_lem ns key i16 v h is e = number_value_lem ns _ key 2 6 _ v h refl (omega arith) e
set_primitive_lem ns key u32 v h is e = number_value_lem ns _ key 4 4 _ v h refl (omega arith) e
set_primitive_lem ns key i32 v h is e = number_value_lem ns _ key 4 4 _ v h refl (omega arith) e
set_primitive_lem ns key u64 v h is e = number_value_lem ns _ key 8 0 _ v h refl (omega arith) e
set_primitive_lem ns key i64 v h is e = number_value_lem ns _ key 8 0 _ v h refl (omega arith) e
set_primitive_lem ns key _ v h is e = absurd (is refl)

-- The entry of a number that was packed.
abbrev pub IsNumberEntry : ℕ → Str → ℤ → Bytes → Option (ℕ × Format) → Type 0
IsNumberEntry ns key v es none = ⊥
IsNumberEntry ns key v es (some (code, f)) =
    (packed : Bytes) × (pack f v ≡ ok packed) × (es ≡ number_layout ns code key packed)

summed_number :
    (ns : ℕ) (key : Str) (v : ℤ) (format : Option (ℕ × Format)) (es : Bytes) {out : Bytes}
    → length key ≤ 16
    → ((code : ℕ) (f : Format) → format ≡ some (code, f) → width f ≤ 8)
    → Packed ns key v es format
    → set_crc_header es ≡ ok out
    → IsNumberEntry ns key v out format
unfolding number_layout erased
summed_number ns key v none es short small h e = absurd h
summed_number ns key v (some (code, f)) es {out} short small (packed, p, is) e =
    let field = packed ++ erased (8 - length packed) in
    let back = entry_back key field in
    let len : length back ≡ 24 = length-entry_back key field short (
      omega (
        arith,
        length-append packed (erased (8 - length packed)),
        length-erased (8 - length packed),
        length-pack f v p,
        small code f refl,
      )) in
    let whole : set_crc_header (unsummed ns code 1 ++ back) ≡ ok out = rw is at e in
    (
      packed,
      p,
      ok-injective (sym whole ∙ set_crc_header_lem ns code 1 0xFF 0xFF 0xFF 0xFF 0xFF back len),
    )

number_format_small :
    (e : Encoding) (code : ℕ) (f : Format) → number_format e ≡ some (code, f) → width f ≤ 8
number_format_small e code f h = ground arith

-- The entry of `write_primitive_data` is that of the number, which fits its format.
pub primitive_entry-IsNumberEntry :
    (key : Str) (v : ℤ) (encoding : Encoding) (ns : ℕ) {es : Bytes}
    → FitsKey key
    → number_format encoding ≢ none
    → primitive_entry key v encoding ns ≡ ok es
    → IsNumberEntry ns key v es (number_format encoding)
unfolding primitive_entry
primitive_entry-IsNumberEntry key v encoding ns fits is h =
    let (e₁, p₁, h₁) = >>=-eq-ok (set_item (erased 32) 0 ns) _ h in
    let (e₂, p₂, h₂) = >>=-eq-ok (set_item e₁ 2 0x01) _ h₁ in
    let (e₃, p₃, h₃) = >>=-eq-ok (set_item e₂ 3 0xFF) _ h₂ in
    let (e₄, p₄, h₄) = >>=-eq-ok (set_key e₃ key) _ h₃ in
    let (e₅, p₅, h₅) = >>=-eq-ok (set_primitive e₄ encoding v) _ h₄ in
    let front : e₃ ≡ unsummed ns 0xFF 1 ++ erased 24 =
      set_item-eq-ok e₂ 3 0xFF p₃
      ∙ ap (λ bs. set bs 3 0xFF) (set_item-eq-ok e₁ 2 1 p₂)
      ∙ ap (λ bs. set (set bs 2 1) 3 0xFF) (set_item-eq-ok (erased 32) 0 ns p₁)
      ∙ unfold erased in refl in
    let keyed : e₄ ≡ unsummed ns 0xFF 1 ++ entry_back key (erased 8) =
      ok-injective (sym p₄ ∙ ap (λ bs. set_key bs key) front ∙ set_key_lem ns 0xFF 1 key fits) in
    let stored : set_primitive (unsummed ns 0xFF 1 ++ entry_back key (erased 8)) encoding v
        ≡ ok e₅ =
      rw keyed at p₅ in
    summed_number ns key v (number_format encoding) e₅ fits.short (number_format_small encoding)
      (set_primitive_lem ns key encoding v fits.short is stored) h₅
