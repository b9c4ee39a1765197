-- ===== src/Stored/Layout/Sums.antt =====
-- Size and checksum of data, stored into the entry before them.
use pedge.Prelude.{
  drop, take, ℕ, ◌-◌, ◌≤◌, ◌≡◌, ◌∙◌, sym, ap, arith, [], ◌∷◌, ◌++◌, length, length-append,
  append_assoc, append-nil, pos,
}
use pedge.Exceptions.{ok, ok-injective, >>=-eq-ok}
use pedge.Python.Bytes.{Bytes, Str, set_slice, zeros, length-zeros}
use pedge.Python.Struct.{unsigned, pack, pack_into, le_bytes}
use pedge.Page.{checksum}
use pedge.Page.Entry.{set_crc_header}
use pedge.Varlen.Headers.{set_sums}
use pedge.Stored.{entry_back, entry_layout, data_field}
use pedge.Stored.Layout.{pack_into-eq-ok, set_slice_over, set_crc_header_lem, length-entry_back}

pub pack_unsigned :
    (w n : ℕ) {packed : Bytes} → pack (unsigned w) (pos n) ≡ ok packed → packed ≡ le_bytes w n
unfolding pack
pack_unsigned w n e = ground arith

length-data_field : (size : ℕ) (payload : Bytes) → length (data_field size payload) ≡ 8
length-data_field size payload = omega arith

module _ (ns code span chunk s₀ s₁ s₂ s₃ z₀ z₁ y₀ y₁ y₂ y₃ : ℕ) (key : Str) (payload : Bytes)
    (short : length key ≤ 16) where
  abbrev front : Bytes
  front = ns ∷ code ∷ span ∷ chunk ∷ s₀ ∷ s₁ ∷ s₂ ∷ s₃ ∷ []

  -- The field before the sums are stored.
  abbrev old : Bytes
  old = z₀ ∷ z₁ ∷ 0xFF ∷ 0xFF ∷ y₀ ∷ y₁ ∷ y₂ ∷ y₃ ∷ []

  -- All of the entry before its field.
  abbrev head : Bytes
  head = front ++ (key ++ zeros (16 - length key))

  head_lem : (field : Bytes) → head ++ field ≡ front ++ entry_back key field
  head_lem field = ap (λ bs. front ++ bs) (append_assoc key (zeros (16 - length key)) field)

  length-head : length head ≡ 24
  length-head =
      omega (arith, length-append key (zeros (16 - length key)), length-zeros (16 - length key))

  stored_sums :
      (size : ℕ) {es₁ es₂ : Bytes}
      → pack_into (unsigned 2) (head ++ old) 24 (pos size) ≡ ok es₁
      → pack_into (unsigned 4) es₁ 28 (pos (checksum payload)) ≡ ok es₂
      → es₂ ≡ head ++ data_field size payload
  stored_sums size {es₁} {es₂} h₁ h₂ =
      let (size_bytes, q₁, out₁) = pack_into-eq-ok (unsigned 2) (head ++ old) 24 (pos size) h₁ in
      let (sum_bytes, q₂, out₂) = pack_into-eq-ok (unsigned 4) es₁ 28 (pos (checksum payload)) h₂ in
      let sized : es₁ ≡ head ++ (le_bytes 2 size ++ drop 2 old) =
        out₁
        ∙ set_slice_over head (take 2 old) (drop 2 old) size_bytes 24 26 length-head (omega arith)
        ∙ ap (λ bs. head ++ (bs ++ drop 2 old)) (pack_unsigned 2 size q₁) in
      let before = head ++ (le_bytes 2 size ++ (0xFF ∷ 0xFF ∷ [])) in
      let apart : (rest : Bytes)
          → before ++ rest ≡ head ++ (le_bytes 2 size ++ (0xFF ∷ 0xFF ∷ rest)) =
        λ rest. append_assoc head (le_bytes 2 size ++ (0xFF ∷ 0xFF ∷ [])) rest in
      out₂
      ∙ ap (λ bs. set_slice bs 28 32 sum_bytes) (sized ∙ sym (apart (drop 4 old)))
      ∙ set_slice_over before (drop 4 old) [] sum_bytes 28 32
          (omega (arith, length-append head (le_bytes 2 size ++ (0xFF ∷ 0xFF ∷ [])), length-head))
          (omega arith)
      ∙ ap (λ bs. before ++ bs) (append-nil sum_bytes ∙ pack_unsigned 4 (checksum payload) q₂)
      ∙ apart (le_bytes 4 (checksum payload))

  -- The sums of data, over what the field held before.
  pub set_sums_lem :
      (size : ℕ) {es : Bytes}
      → set_sums (front ++ entry_back key old) size payload ≡ ok es
      → es ≡ entry_layout ns code span chunk key (data_field size payload)
  unfolding set_sums entry_layout
  set_sums_lem size {es} h =
      let start = front ++ entry_back key old in
      let (e₁, p₁, h₁) = >>=-eq-ok (pack_into (unsigned 2) start 24 (pos size)) _ h in
      let (e₂, p₂, h₂) = >>=-eq-ok (pack_into (unsigned 4) e₁ 28 (pos (checksum payload))) _ h₁ in
      let field = data_field size payload in
      let at_head : pack_into (unsigned 2) (head ++ old) 24 (pos size) ≡ ok e₁ =
        ap (λ bs. pack_into (unsigned 2) bs 24 (pos size)) (head_lem old) ∙ p₁ in
      let whole : e₂ ≡ front ++ entry_back key field =
        stored_sums size at_head p₂ ∙ head_lem field in
      ok-injective (
        sym h₂
        ∙ ap set_crc_header whole
        ∙ set_crc_header_lem ns code span chunk s₀ s₁ s₂ s₃ (entry_back key field)
            (length-entry_back key field short (length-data_field size payload)))
