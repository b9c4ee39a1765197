-- ===== src/Stored/Layout/Chunk.antt =====
-- The entries of a blob, its chunks and its index, have the layout of the format.
use pedge.Prelude.{
  ℕ, zero, suc, ◌+◌, ◌-◌, ◌/◌, ◌%◌, ◌≤◌, ◌≡◌, ◌∙◌, refl, sym, ap, arith, [], ◌∷◌, ◌++◌, length,
  length-append, set, append_assoc, append-nil, pos, true,
}
use mathlib.Core.Path.{subst}
use pedge.Exceptions.{ok, ok-injective, >>=-eq-ok}
use pedge.Python.Bytes.{Bytes, Str, set_slice, set_item, erased, zeros, length-zeros}
use pedge.Python.Struct.{unsigned, pack_into, le_bytes}
use pedge.State.{Encoding, hex2bin, base64, binary_encoding, version2}
use pedge.State.ItemType
use pedge.Page.{checksum}
use pedge.Page.Shape.{FitsKey}
use pedge.Page.Entry.{set_crc_header, set_key}
use pedge.Varlen.Headers.{
  entries_for, is_blob, set_sums, set_span, set_type, varlen_header, chunk_header, index_entry,
}
use pedge.Stored.{entry_front, entry_back, entry_layout, data_field, index_layout}
use pedge.Stored.Layout.{
  unsummed, set_item-eq-ok, pack_into-eq-ok, set_slice_over, set_key_lem, set_crc_header_lem,
  length-entry_back,
}
use pedge.Stored.Layout.Sums.{set_sums_lem, pack_unsigned}

-- An entry under a key in a namespace, whatever else it holds, but for the two bytes that no sum takes.
pub record Keyed (ns : ℕ) (key : Str) (es : Bytes) : Type 0 where
  pub code : ℕ
  pub span : ℕ
  pub chunk : ℕ
  pub s₀ : ℕ
  pub s₁ : ℕ
  pub s₂ : ℕ
  pub s₃ : ℕ
  pub z₀ : ℕ
  pub z₁ : ℕ
  pub y₀ : ℕ
  pub y₁ : ℕ
  pub y₂ : ℕ
  pub y₃ : ℕ
  pub is :
      es
      ≡ (ns ∷ code ∷ span ∷ chunk ∷ s₀ ∷ s₁ ∷ s₂ ∷ s₃ ∷ [])
        ++ entry_back key (z₀ ∷ z₁ ∷ 0xFF ∷ 0xFF ∷ y₀ ∷ y₁ ∷ y₂ ∷ y₃ ∷ [])

layout-Keyed :
    (ns code span chunk : ℕ) (key : Str) (size : ℕ) (payload : Bytes)
    → Keyed ns key (entry_layout ns code span chunk key (data_field size payload))
unfolding entry_layout
layout-Keyed ns code span chunk key size payload =
    let back = entry_back key (data_field size payload) in
    let sum = checksum (entry_front ns code span chunk ++ back) in
    let data_sum = checksum payload in
    record {
      code = code;
      span = span;
      chunk = chunk;
      s₀ = sum % 256;
      s₁ = sum / 256 % 256;
      s₂ = sum / 256 / 256 % 256;
      s₃ = sum / 256 / 256 / 256 % 256;
      z₀ = size % 256;
      z₁ = size / 256 % 256;
      y₀ = data_sum % 256;
      y₁ = data_sum / 256 % 256;
      y₂ = data_sum / 256 / 256 % 256;
      y₃ = data_sum / 256 / 256 / 256 % 256;
      is = refl;
    }

set_span-blob :
    (count : ℕ) (encoding : Encoding) (es : Bytes)
    → is_blob encoding ≡ true
    → set_span version2 count encoding es ≡ set_item es 3 0xFF
unfolding set_span
set_span-blob count hex2bin es h = refl
set_span-blob count base64 es h = refl
set_span-blob count binary_encoding es h = refl
set_span-blob count _ es h = cc

set_type-blob :
    (encoding : Encoding) (es : Bytes)
    → is_blob encoding ≡ true
    → set_type encoding es ≡ set_item es 1 ItemType.blob
unfolding set_type
set_type-blob hex2bin es h = refl
set_type-blob base64 es h = refl
set_type-blob binary_encoding es h = refl
set_type-blob _ es h = cc

-- The entry that `write_varlen_data` builds for a blob of version 2.
pub varlen_header-Keyed :
    (key : Str) (count ns : ℕ) (encoding : Encoding) {es : Bytes}
    → FitsKey key
    → is_blob encoding ≡ true
    → varlen_header version2 key count encoding ns ≡ ok es
    → Keyed ns key es
unfolding varlen_header
varlen_header-Keyed key count ns encoding {es} fits blob h =
    let (e₁, p₁, h₁) = >>=-eq-ok (set_item (erased 32) 0 ns) _ h in
    let (e₂, p₂, h₂) = >>=-eq-ok (set_span version2 count encoding e₁) _ h₁ in
    let (e₃, p₃, h₃) = >>=-eq-ok (set_key e₂ key) _ h₂ in
    let first : e₁ ≡ unsummed ns 0xFF 0xFF ++ erased 24 =
      set_item-eq-ok (erased 32) 0 ns p₁ ∙ unfold erased in refl in
    let spanned : e₂ ≡ unsummed ns 0xFF 0xFF ++ erased 24 =
      set_item-eq-ok e₁ 3 0xFF (sym (set_span-blob count encoding e₁ blob) ∙ p₂)
      ∙ ap (λ bs. set bs 3 0xFF) first in
    let keyed : e₃ ≡ unsummed ns 0xFF 0xFF ++ entry_back key (erased 8) =
      ok-injective
        (sym p₃ ∙ ap (λ bs. set_key bs key) spanned ∙ set_key_lem ns 0xFF 0xFF key fits) in
    record {
      code = ItemType.blob;
      span = 0xFF;
      chunk = 0xFF;
      s₀ = 0xFF;
      s₁ = 0xFF;
      s₂ = 0xFF;
      s₃ = 0xFF;
      z₀ = 0xFF;
      z₁ = 0xFF;
      y₀ = 0xFF;
      y₁ = 0xFF;
      y₂ = 0xFF;
      y₃ = 0xFF;
      is =
          set_item-eq-ok e₃ 1 ItemType.blob (sym (set_type-blob encoding e₃ blob) ∙ h₃)
          ∙ ap (λ bs. set bs 1 ItemType.blob) keyed
          ∙ unfold erased in refl;
    }

set-append_right :
    (xs ys : Bytes) (i j v : ℕ) → i ≡ length xs + j → set (xs ++ ys) i v ≡ xs ++ set ys j v
set-append_right [] ys i j v e = ap (λ k. set ys k v) (omega arith)
set-append_right (x ∷ xs) ys zero j v e = absurd (omega arith)
set-append_right (x ∷ xs) ys (suc i) j v e =
    ap (λ t. x ∷ t) (set-append_right xs ys i j v (omega arith))

module _ {ns : ℕ} {key : Str} (short : length key ≤ 16) where
  pub chunk_header_lem :
      (es : Bytes) (index size : ℕ) (payload : Bytes) {out : Bytes}
      → Keyed ns key es
      → chunk_header es index size payload ≡ ok out
      → (out
          ≡ entry_layout ns ItemType.blob_data
              (entries_for size + 1)
              index
              key
              (data_field size payload))
        × Keyed ns key out
  unfolding chunk_header
  chunk_header_lem es index size payload {out} k h =
      let (e₁, p₁, h₁) = >>=-eq-ok (set_item es 1 ItemType.blob_data) _ h in
      let (e₂, p₂, h₂) = >>=-eq-ok (set_item e₁ 2 (entries_for size + 1)) _ h₁ in
      let (e₃, p₃, h₃) = >>=-eq-ok (set_item e₂ 3 index) _ h₂ in
      let old = k.z₀ ∷ k.z₁ ∷ 0xFF ∷ 0xFF ∷ k.y₀ ∷ k.y₁ ∷ k.y₂ ∷ k.y₃ ∷ [] in
      let typed : e₃
          ≡ (ns
              ∷ ItemType.blob_data
              ∷ (entries_for size + 1)
              ∷ index
              ∷ k.s₀
              ∷ k.s₁
              ∷ k.s₂
              ∷ k.s₃
              ∷ [])
            ++ entry_back key old =
        set_item-eq-ok e₂ 3 index p₃
        ∙ ap (λ bs. set bs 3 index) (set_item-eq-ok e₁ 2 (entries_for size + 1) p₂)
        ∙ ap (λ bs. set (set bs 2 (entries_for size + 1)) 3 index)
            (set_item-eq-ok es 1 ItemType.blob_data p₁)
        ∙ ap (λ bs. set (set (set bs 1 ItemType.blob_data) 2 (entries_for size + 1)) 3 index)
            k.is in
      let layout =
        set_sums_lem ns ItemType.blob_data (entries_for size + 1) index k.s₀ k.s₁ k.s₂ k.s₃ k.z₀
          k.z₁ k.y₀ k.y₁ k.y₂ k.y₃ key payload short size
          (ap (λ bs. set_sums bs size payload) (sym typed) ∙ h₃) in
      (
        layout,
        subst (Keyed ns key) (sym layout)
            (layout-Keyed ns ItemType.blob_data (entries_for size + 1) index key size payload),
      )

  pub index_entry_lem :
      (es : Bytes) (size count : ℕ) {out : Bytes}
      → Keyed ns key es
      → index_entry es size count ≡ ok out
      → out ≡ index_layout ns key size count
  unfolding index_entry index_layout
  index_entry_lem es size count {out} k h =
      let start = set_slice es 24 32 (erased 8) in
      let (e₁, p₁, h₁) = >>=-eq-ok (set_item start 1 ItemType.blob_idx) _ h in
      let (e₂, p₂, h₂) = >>=-eq-ok (set_item e₁ 2 1) _ h₁ in
      let (e₃, p₃, h₃) = >>=-eq-ok (set_item e₂ 3 0xFF) _ h₂ in
      let (e₄, p₄, h₄) = >>=-eq-ok (pack_into (unsigned 4) e₃ 24 (pos size)) _ h₃ in
      let (e₅, p₅, h₅) = >>=-eq-ok (set_item e₄ 28 count) _ h₄ in
      let (e₆, p₆, h₆) = >>=-eq-ok (set_item e₅ 29 0) _ h₅ in
      let (size_bytes, q, out₄) = pack_into-eq-ok (unsigned 4) e₃ 24 (pos size) p₄ in
      let named = key ++ zeros (16 - length key) in
      let old = k.z₀ ∷ k.z₁ ∷ 0xFF ∷ 0xFF ∷ k.y₀ ∷ k.y₁ ∷ k.y₂ ∷ k.y₃ ∷ [] in
      let before = (ns ∷ k.code ∷ k.span ∷ k.chunk ∷ k.s₀ ∷ k.s₁ ∷ k.s₂ ∷ k.s₃ ∷ []) ++ named in
      let head = (ns ∷ ItemType.blob_idx ∷ 1 ∷ 0xFF ∷ k.s₀ ∷ k.s₁ ∷ k.s₂ ∷ k.s₃ ∷ []) ++ named in
      let len : length named ≡ 16 =
        omega
          (arith, length-append key (zeros (16 - length key)), length-zeros (16 - length key)) in
      let whole : es ≡ before ++ (old ++ []) =
        k.is
        ∙ ap (λ bs. (ns ∷ k.code ∷ k.span ∷ k.chunk ∷ k.s₀ ∷ k.s₁ ∷ k.s₂ ∷ k.s₃ ∷ []) ++ bs)
            (sym (append_assoc key (zeros (16 - length key)) old)) in
      let cleared : start ≡ before ++ erased 8 =
        ap (λ bs. set_slice bs 24 32 (erased 8)) whole
        ∙ set_slice_over before old [] (erased 8) 24 32 (omega (arith, len)) (omega arith)
        ∙ ap (λ bs. before ++ bs) (append-nil (erased 8)) in
      let typed : e₃ ≡ head ++ erased 8 =
        set_item-eq-ok e₂ 3 0xFF p₃
        ∙ ap (λ bs. set bs 3 0xFF) (set_item-eq-ok e₁ 2 1 p₂)
        ∙ ap (λ bs. set (set bs 2 1) 3 0xFF) (set_item-eq-ok start 1 ItemType.blob_idx p₁)
        ∙ ap (λ bs. set (set (set bs 1 ItemType.blob_idx) 2 1) 3 0xFF) cleared in
      let sized : e₄ ≡ head ++ (le_bytes 4 size ++ erased 4) =
        out₄
        ∙ ap (λ bs. set_slice bs 24 28 size_bytes) typed
        ∙ unfold erased in
          (set_slice_over head (erased 4) (erased 4) size_bytes 24 28 (omega (arith, len))
              (omega arith)
            ∙ ap (λ bs. head ++ (bs ++ erased 4)) (pack_unsigned 4 size q)) in
      let field = le_bytes 4 size ++ (count ∷ 0 ∷ 0xFF ∷ 0xFF ∷ []) in
      let counted : e₆ ≡ head ++ field =
        set_item-eq-ok e₅ 29 0 p₆
        ∙ ap (λ bs. set bs 29 0) (set_item-eq-ok e₄ 28 count p₅)
        ∙ ap (λ bs. set (set bs 28 count) 29 0) sized
        ∙ ap (λ bs. set bs 29 0)
            (set-append_right head (le_bytes 4 size ++ erased 4) 28 4 count (omega (arith, len)))
        ∙ set-append_right head (set (le_bytes 4 size ++ erased 4) 4 count) 29 5 0
            (omega (arith, len))
        ∙ unfold erased in refl in
      let apart : head ++ field
          ≡ (ns ∷ ItemType.blob_idx ∷ 1 ∷ 0xFF ∷ k.s₀ ∷ k.s₁ ∷ k.s₂ ∷ k.s₃ ∷ [])
            ++ entry_back key field =
        ap (λ bs. (ns ∷ ItemType.blob_idx ∷ 1 ∷ 0xFF ∷ k.s₀ ∷ k.s₁ ∷ k.s₂ ∷ k.s₃ ∷ []) ++ bs)
          (append_assoc key (zeros (16 - length key)) field) in
      unfold entry_layout in
      ok-injective (
        sym h₆
        ∙ ap set_crc_header (counted ∙ apart)
        ∙ set_crc_header_lem ns ItemType.blob_idx 1 0xFF k.s₀ k.s₁ k.s₂ k.s₃ (entry_back key field)
            (length-entry_back key field short (omega arith)))
