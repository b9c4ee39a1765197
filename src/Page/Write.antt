-- ===== src/Page/Write.antt =====
-- `Page.write_entry_to_buf` on a page in use: what is stored, what is marked and what stays.
use pedge.Prelude.{
  ℕ, ◌+◌, ◌-◌, ◌*◌, ◌≤◌, ◌<◌, ◌≡◌, ◌∙◌, ◌⊎◌, inl, inr, refl, sym, ap, arith, length, get_or,
  if◌then◌else◌, Bool, true, false,
}
use mathlib.Core.Path.{subst}
use pedge.Exceptions.{Result, ok, ok-injective, >>=-eq-ok}
use pedge.Python.Bytes.{Bytes, set_slice, length-set_slice}
use pedge.Python.Slices.{
  get_or-set_slice_before, get_or-set_slice_in, get_or-set_slice_after, slice-set_slice_before,
}
use pedge.Cipher.{XtsAes, IsXtsAes}
use pedge.Page.Crypt.Length.{length-encrypt_data}
use pedge.State.{Page, Nvs, Buffer, contents}
use pedge.Page.Bitmap.{IsValid, Marked, mark_entries-Marked}
use pedge.Page.Crypt.{encrypt_data}
use pedge.Page.Entry.{write_entry_to_buf}

-- The offset of an entry in its page.
abbrev pub entry_offset : ℕ → ℕ
entry_offset n = 64 + 32 * n

-- What storing `out` as `count` entries does to a page.
pub record Wrote (p : Page) (out : Bytes) (count : ℕ) (q : Page) : Type 0 where
  pub entries : q.entry_num ≡ p.entry_num + count
  pub valid : IsValid q
  pub version : q.version ≡ p.version
  pub stored :
      (i : ℕ) → i < length out → get_or q.page_buf (entry_offset p.entry_num + i) 0 ≡ get_or out i 0
  pub before :
      (j : ℕ)
      → (j < 32) ⊎ ((64 ≤ j) × (j < entry_offset p.entry_num))
      → get_or q.page_buf j 0 ≡ get_or p.page_buf j 0
  pub after :
      (j : ℕ)
      → entry_offset p.entry_num + length out ≤ j
      → get_or q.page_buf j 0 ≡ get_or p.page_buf j 0

-- The page between the store of the data and the marking.
abbrev stored_at : Page → Bytes → Page
stored_at p out = record p {
  page_buf =
      set_slice p.page_buf (entry_offset p.entry_num) (entry_offset p.entry_num + length out) out;
}

stored_at-IsValid :
    (p : Page) (out : Bytes)
    → IsValid p
    → entry_offset p.entry_num + length out ≤ 4096
    → IsValid (stored_at p out)
stored_at-IsValid p out v fits =
    let start = entry_offset p.entry_num in
    let end = entry_offset p.entry_num + length out in
    record {
      length_buf =
          length-set_slice p.page_buf start end out (omega arith) (omega arith) refl ∙ v.length_buf;
      length_bitmap = v.length_bitmap;
      room = v.room;
      marks = v.marks;
      image =
          slice-set_slice_before p.page_buf 32 64 start end out (omega arith) (omega arith) refl
            (omega arith)
          ∙ v.image;
    }

Wrote-of-Marked :
    (p : Page) (out : Bytes) (count : ℕ) (q : Page)
    → IsValid p
    → entry_offset p.entry_num + length out ≤ 4096
    → Marked (stored_at p out) count q
    → Wrote p out count q
Wrote-of-Marked p out count q v fits m =
    let start = entry_offset p.entry_num in
    let end = entry_offset p.entry_num + length out in
    let inside : end ≤ length p.page_buf = omega arith in
    record {
      entries = m.entries;
      valid = m.valid;
      version = m.version;
      stored = λ i lt.
          m.others (start + i) (inr (omega arith))
          ∙ get_or-set_slice_in p.page_buf start end out (start + i) refl inside (omega arith)
              (omega arith)
          ∙ ap (λ k. get_or out k 0) {x = start + i - start} {y = i} (omega arith);
      before = λ j side. elim side [
        | inl header ↦
            m.others j (inl header)
            ∙ get_or-set_slice_before p.page_buf start end out j refl inside (omega arith)
        | inr older ↦
            m.others j (inr older.0)
            ∙ get_or-set_slice_before p.page_buf start end out j refl inside older.1
      ];
      after = λ j h.
          m.others j (inr (omega arith))
          ∙ get_or-set_slice_after p.page_buf start end out j refl inside h;
    }

-- The bytes that `write_entry_to_buf` stores: the data, or its encryption.
abbrev pub stored_bytes : XtsAes → Nvs → ℕ → Buffer → ℕ → Result Bytes
stored_bytes xts nvs entry_num buffer count =
    if nvs.encrypt then encrypt_data xts nvs entry_num buffer count else ok (contents buffer)

-- Bytes that fit their entries, on a valid page with room for these, are stored from the offset of
-- its next entry on and marked; the other entries and the header stay, and the page is valid.
pub write_entry_to_buf-Wrote :
    (xts : XtsAes) (nvs : Nvs) (p : Page) (buffer : Buffer) (count : ℕ) (out : Bytes)
    → IsValid p
    → p.entry_num + count ≤ 126
    → stored_bytes xts nvs p.entry_num buffer count ≡ ok out
    → length out ≤ 32 * count
    → (q : Page) × (write_entry_to_buf xts nvs p buffer count ≡ ok q) × Wrote p out count q
unfolding write_entry_to_buf
write_entry_to_buf-Wrote xts nvs p buffer count out v room e fits =
    let inside : entry_offset p.entry_num + length out ≤ 4096 = omega arith in
    let (q, done, m) =
      mark_entries-Marked count (stored_at p out) (stored_at-IsValid p out v inside) room in
    (q, rw e done, Wrote-of-Marked p out count q v inside m)

-- Data that fit their entries still do when they are stored, in the clear or encrypted.
stored_bytes_fit :
    (xts : XtsAes) (nvs : Nvs) (entry_num : ℕ) (buffer : Buffer) (count : ℕ) {out : Bytes}
    → IsXtsAes xts
    → length (contents buffer) ≤ 32 * count
    → (on : Bool)
    → (if on then encrypt_data xts nvs entry_num buffer count else ok (contents buffer)) ≡ ok out
    → length out ≤ 32 * count
stored_bytes_fit xts nvs entry_num buffer count laws fits true e =
    omega (arith, length-encrypt_data xts laws nvs entry_num buffer count e)
stored_bytes_fit xts nvs entry_num buffer count laws fits false e = ground arith

pub write_entry_to_buf-eq-ok :
    (xts : XtsAes) (nvs : Nvs) (p : Page) (buffer : Buffer) (count : ℕ) {q : Page}
    → IsXtsAes xts
    → IsValid p
    → p.entry_num + count ≤ 126
    → length (contents buffer) ≤ 32 * count
    → write_entry_to_buf xts nvs p buffer count ≡ ok q
    → (out : Bytes) × (stored_bytes xts nvs p.entry_num buffer count ≡ ok out) × Wrote p out count q
unfolding write_entry_to_buf
write_entry_to_buf-eq-ok xts nvs p buffer count laws v room fits e =
    let (out, stored, marked) = >>=-eq-ok (stored_bytes xts nvs p.entry_num buffer count) _ e in
    let small = stored_bytes_fit xts nvs p.entry_num buffer count laws fits nvs.encrypt stored in
    let (q', done, wrote) =
      write_entry_to_buf-Wrote xts nvs p buffer count out v room stored small in
    (out, stored, subst (λ r. Wrote p out count r) (ok-injective (sym done ∙ e)) wrote)
