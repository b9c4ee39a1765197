-- ===== src/Stored/Layout/Text.antt =====
-- The entry of a string has the layout of the format.
use pedge.Prelude.{
  Bool, true, false, ◌==◌, if◌then◌else◌, ℕ, ◌+◌, ◌≡◌, ◌∙◌, refl, sym, ap, ◌++◌, length, set,
}
use pedge.Exceptions.{ok, ok-injective, >>=-eq-ok, ◌>>=◌}
use pedge.Python.Bytes.{Bytes, Str, set_item, erased}
use pedge.State.{version2, string_encoding}
use pedge.State.ItemType
use pedge.Page.Shape.{FitsKey}
use pedge.Page.Entry.{set_key}
use pedge.Varlen.Headers.{set_sums, set_span, set_type, varlen_header}
use pedge.Stored.{entry_back, string_layout}
use pedge.Stored.Layout.{unsummed, set_item-eq-ok, set_key_lem}
use pedge.Stored.Layout.Sums.{set_sums_lem}

-- The header of a string, before its sums: the span counts the entries of the data and its own.
set_span_lem :
    (version count ns : ℕ) {es : Bytes}
    → set_span version count string_encoding (unsummed ns 0xFF 0xFF ++ erased 24) ≡ ok es
    → es ≡ unsummed ns 0xFF (count + 1) ++ erased 24
unfolding set_span erased
set_span_lem version count ns {es} h = split (version == version2) h
  where
    start : Bytes
    start = unsummed ns 0xFF 0xFF ++ erased 24

    split :
        (b : Bool)
        → (if b
            then (set_item start 2 (count + 1) >>= λ es. set_item es 3 0xFF)
            else set_item start 2 (count + 1))
          ≡ ok es
        → es ≡ unsummed ns 0xFF (count + 1) ++ erased 24
    split true e =
        let (e₁, p, q) = >>=-eq-ok (set_item start 2 (count + 1)) (λ bs. set_item bs 3 0xFF) e in
        set_item-eq-ok e₁ 3 0xFF q ∙ ap (λ bs. set bs 3 0xFF) (set_item-eq-ok start 2 (count + 1) p)
    split false e = set_item-eq-ok start 2 (count + 1) e

varlen_header_lem :
    (version : ℕ) (key : Str) (count ns : ℕ) {es : Bytes}
    → FitsKey key
    → varlen_header version key count string_encoding ns ≡ ok es
    → es ≡ unsummed ns ItemType.sz (count + 1) ++ entry_back key (erased 8)
unfolding varlen_header
varlen_header_lem version key count ns {es} fits h =
    let (e₁, p₁, h₁) = >>=-eq-ok (set_item (erased 32) 0 ns) _ h in
    let (e₂, p₂, h₂) = >>=-eq-ok (set_span version count string_encoding e₁) _ h₁ in
    let (e₃, p₃, h₃) = >>=-eq-ok (set_key e₂ key) _ h₂ in
    let first : e₁ ≡ unsummed ns 0xFF 0xFF ++ erased 24 =
      set_item-eq-ok (erased 32) 0 ns p₁ ∙ unfold erased in refl in
    let spanned : e₂ ≡ unsummed ns 0xFF (count + 1) ++ erased 24 =
      set_span_lem version count ns
        (ap (set_span version count string_encoding) (sym first) ∙ p₂) in
    let keyed : e₃ ≡ unsummed ns 0xFF (count + 1) ++ entry_back key (erased 8) =
      ok-injective
        (sym p₃ ∙ ap (λ bs. set_key bs key) spanned ∙ set_key_lem ns 0xFF (count + 1) key fits) in
    let typed : set_item e₃ 1 ItemType.sz ≡ ok es = unfold set_type in h₃ in
    set_item-eq-ok e₃ 1 ItemType.sz typed ∙ ap (λ bs. set bs 1 ItemType.sz) keyed

-- A header that is summed has the layout of a string with its data.
pub string_entry_lem :
    (version : ℕ) (key : Str) (count ns : ℕ) (payload : Bytes) {es es' : Bytes}
    → FitsKey key
    → varlen_header version key count string_encoding ns ≡ ok es
    → set_sums es (length payload) payload ≡ ok es'
    → es' ++ payload ≡ string_layout ns key count payload
unfolding string_layout erased
string_entry_lem version key count ns payload fits h₁ h₂ =
    let header = varlen_header_lem version key count ns fits h₁ in
    ap (λ bs. bs ++ payload)
      (set_sums_lem ns ItemType.sz (count + 1) 0xFF 0xFF 0xFF 0xFF 0xFF 0xFF 0xFF 0xFF 0xFF 0xFF
        0xFF key payload fits.short (length payload)
        (ap (λ bs. set_sums bs (length payload) payload) (sym header) ∙ h₂))
