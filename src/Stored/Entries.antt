-- ===== src/Stored/Entries.antt =====
-- Numbers and strings, written in the clear, stand in a page with the layout of the format.
use pedge.Prelude.{
  ℕ, ◌+◌, ◌*◌, ◌≤◌, ◌≡◌, ◌≢◌, ◌∙◌, refl, sym, ap, arith, ◌++◌, length, Bool, true, false, ◌&&◌,
  ◌==◌, none, ℤ, if◌then◌else◌,
}
use mathlib.Core.Path.{subst}
use pedge.Exceptions.{Result, ok, err, ok-injective}
use pedge.Exceptions
use pedge.Python.Bytes.{Bytes, Str}
use pedge.Cipher.{XtsAes, IsXtsAes}
use pedge.State.{
  Page, Nvs, Buffer, bytearray, bytes, contents, Value, Encoding, string_encoding, version2,
}
use pedge.Page.Bitmap.{IsValid}
use pedge.Page.Shape.{FitsKey, length-primitive_entry}
use pedge.Page.Write.{stored_bytes, Wrote, write_entry_to_buf-eq-ok}
use pedge.Page.Entry.{write_entry_to_buf, write_primitive_data}
use pedge.Nvs.Monad.{Action, cur_page, head_page, on_cur_page, lift, ◌>>=◌}
use pedge.Nvs.Space.{Sound}
use pedge.Nvs.Rules.{head-IsValid}
use pedge.Varlen.{write_by_kind, write_varlen_on, write_varlen_data, write_varlen_binary_data}
use pedge.Varlen.Headers.{
  entries_for, value_length, to_bytes, set_sums, varlen_header, check_varlen, write_both,
  write_single_page_entry,
}
use pedge.Varlen.Safe.{FitsValue, length-to_bytes, length-set_sums, length-varlen_header}
use pedge.Varlen.Data.{check_varlen-room}
use pedge.Entries.{write_primitive}
use pedge.Entries.Primitive.{write_primitive_data-Wrote}
use pedge.Stored.{number_format, string_layout}
use pedge.Stored.Layout.Number.{IsNumberEntry, primitive_entry-IsNumberEntry}
use pedge.Stored.Layout.Text.{string_entry_lem}
use pedge.Stored.Held.{OnPage, Wrote-OnPage, Wrote-OnPage_both}
use pedge.Stored.Steps.{Left, Leaves, >>=-Left, on_cur_page-Leaves, on_cur_page-Leaves_at}

-- In the clear the data themselves are stored.
pub stored_bytes_clear :
    (xts : XtsAes) (n : Nvs) (entry_num : ℕ) (buffer : Buffer) (count : ℕ) {out : Bytes}
    → n.encrypt ≡ false
    → stored_bytes xts n entry_num buffer count ≡ ok out
    → out ≡ contents buffer
stored_bytes_clear xts n entry_num buffer count clear stored = ground (arith, clear, stored)

-- A string as it stands in a page: the layout of the format, of the value's bytes.
abbrev pub IsStringEntry : Str → ℕ → Value → Bytes → Type 0
IsStringEntry key ns v bs =
    (payload : Bytes) × (to_bytes v ≡ ok payload)
    × (bs ≡ string_layout ns key (entries_for (length payload)) payload)

module _ (xts : XtsAes) (laws : IsXtsAes xts) where
  -- An entry and the data after it.
  pub write_both-OnPage :
      (n : Nvs) (p : Page) (es payload : Bytes) (count : ℕ) {q : Page}
      → n.encrypt ≡ false
      → IsValid p
      → p.entry_num + 1 + count ≤ 126
      → length es ≡ 32
      → length payload ≤ 32 * count
      → write_both xts n p es payload count ≡ ok q
      → OnPage (es ++ payload) q
  unfolding write_both
  write_both-OnPage n p es payload count {q} clear valid room len small h =
      let (m, p₁, h₁) = Exceptions.>>=-eq-ok (write_entry_to_buf xts n p (bytearray es) 1) _ h in
      let (o₁, s₁, w₁) =
        write_entry_to_buf-eq-ok xts n p (bytearray es) 1 laws valid (omega arith) (omega arith)
          p₁ in
      let (o₂, s₂, w₂) =
        write_entry_to_buf-eq-ok xts n m (bytes payload) count laws w₁.valid
          (omega (arith, w₁.entries)) small h₁ in
      Wrote-OnPage_both
        (subst (λ (bs : Bytes). Wrote p bs 1 m)
          (stored_bytes_clear xts n p.entry_num (bytearray es) 1 clear s₁) w₁)
        (subst (λ (bs : Bytes). Wrote m bs count q)
          (stored_bytes_clear xts n m.entry_num (bytes payload) count clear s₂) w₂)
        len small

module _ (xts : XtsAes) (laws : IsXtsAes xts) (key : Str) (fits_key : FitsKey key) where
  pub write_primitive-Leaves :
      (v : ℤ) (encoding : Encoding) (ns : ℕ)
      → number_format encoding ≢ none
      → Leaves
          (λ bs. IsNumberEntry ns key v bs (number_format encoding))
          (write_primitive xts key v encoding ns)
  unfolding write_primitive
  write_primitive-Leaves v encoding ns is =
      on_cur_page-Leaves (λ bs. IsNumberEntry ns key v bs (number_format encoding))
        (λ nvs self.
          Exceptions.◌>>=◌ (write_primitive_data xts nvs self key v encoding ns)
            (λ self'. ok (tt, self')))
        λ n p q valid clear done.
          let (q', made, e) =
            Exceptions.>>=-eq-ok (write_primitive_data xts n p key v encoding ns) _ done in
          let (es, out, built, stored, wrote) =
            write_primitive_data-Wrote xts n p key v encoding ns laws valid fits_key made in
          let same : out ≡ es =
            stored_bytes_clear xts n p.entry_num (bytearray es) 1 clear stored in
          let len = length-primitive_entry key v encoding ns fits_key built in
          (
            es,
            primitive_entry-IsNumberEntry key v encoding ns fits_key is built,
            subst (λ (r : Unit {0} × Page). OnPage es r.1) (ok-injective e)
                (Wrote-OnPage (subst (λ (bs : Bytes). Wrote p bs 1 q') same wrote)
                  (omega (arith, len))),
          )

  module _ (v : Value) (fits : FitsValue v) (ns : ℕ) where
    write_single_page_entry-OnPage :
        (n : Nvs) (p q : Page) (version : ℕ) (es : Bytes)
        → n.encrypt ≡ false
        → IsValid p
        → p.entry_num + 1 + entries_for (value_length v) ≤ 126
        → varlen_header version key (entries_for (value_length v)) string_encoding ns ≡ ok es
        → write_single_page_entry xts es v (value_length v) (entries_for (value_length v)) n p
          ≡ ok (tt, q)
        → (bs : Bytes) × IsStringEntry key ns v bs × OnPage bs q
    unfolding write_single_page_entry
    write_single_page_entry-OnPage n p q version es clear valid room built h =
        let size = value_length v in
        let count = entries_for size in
        let (payload, p₁, h₁) = Exceptions.>>=-eq-ok (to_bytes v) _ h in
        let (es₁, p₂, h₂) = Exceptions.>>=-eq-ok (set_sums es size payload) _ h₁ in
        let (q₁, p₃, h₃) = Exceptions.>>=-eq-ok (write_both xts n p es₁ payload count) _ h₂ in
        let len : length payload ≡ size = length-to_bytes v fits p₁ in
        let len₁ : length es₁ ≡ 32 =
          length-set_sums es size payload p₂
          ∙ length-varlen_header version key count string_encoding ns fits_key built in
        let sums : set_sums es (length payload) payload ≡ ok es₁ =
          ap (λ k. set_sums es k payload) len ∙ p₂ in
        let layout : es₁ ++ payload ≡ string_layout ns key count payload =
          string_entry_lem version key count ns payload fits_key built sums in
        (
          es₁ ++ payload,
          (payload, p₁, layout ∙ ap (λ k. string_layout ns key (entries_for k) payload) (sym len)),
          subst (λ (r : Unit {0} × Page). OnPage (es₁ ++ payload) r.1) (ok-injective h₃)
              (write_both-OnPage xts laws n p es₁ payload count clear valid room len₁
                (omega (arith, len)) p₃),
        )

    and_false : (b : Bool) → (b && false) ≡ false
    and_false true = refl
    and_false false = refl

    -- A string that is not split over pages.
    write_by_kind-Left :
        (n : Nvs) (p : Page) (es : Bytes) {total left : ℕ}
        → Sound total left n
        → n.encrypt ≡ false
        → head_page n.pages ≡ ok p
        → check_varlen p v string_encoding ≡ ok tt
        → varlen_header p.version key (entries_for (value_length v)) string_encoding ns ≡ ok es
        → Left (IsStringEntry key ns v) (write_by_kind xts v string_encoding p es n)
    unfolding write_by_kind
    write_by_kind-Left n p es s clear found checked built =
        let size = value_length v in
        let whole = and_false (p.version == version2) in
        let single = write_single_page_entry xts es v size (entries_for size) in
        let room = check_varlen-room p v string_encoding checked whole in
        subst
          (λ (b : Bool).
            Left (IsStringEntry key ns v)
              ((if b then write_varlen_binary_data xts es v size else on_cur_page single) n))
          (sym whole)
          (on_cur_page-Leaves_at (IsStringEntry key ns v) single n λ q r ps e h.
            let same : q ≡ p = ok-injective (sym (ap head_page e) ∙ found) in
            write_single_page_entry-OnPage n q r p.version es clear (head-IsValid s e)
              (subst (λ (k : Page). k.entry_num + 1 + entries_for size ≤ 126) (sym same)
                (omega arith))
              built h)

    pub write_varlen_data-Leaves :
        Leaves (IsStringEntry key ns v) (write_varlen_data xts key v string_encoding ns)
    unfolding write_varlen_data write_varlen_on
    write_varlen_data-Leaves total left n s clear =
        let P = IsStringEntry key ns v in
        >>=-Left P cur_page (write_varlen_on xts key v string_encoding ns) n λ p found.
          let built =
            varlen_header p.version key (entries_for (value_length v)) string_encoding ns in
          let rest : Action (Unit {0}) = lift built >>= write_by_kind xts v string_encoding p in
          >>=-Left P (lift (check_varlen p v string_encoding)) (λ _. rest) n
            λ u checked.
              >>=-Left P (lift built) (write_by_kind xts v string_encoding p) n
                λ es made. write_by_kind-Left n p es s clear found checked made
