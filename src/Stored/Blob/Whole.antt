-- ===== src/Stored/Blob/Whole.antt =====
-- `write_varlen_data` on a blob, in the clear and on a page of version 2.
use pedge.Prelude.{
  ℕ, ◌≡◌, ◌∙◌, sym, ap, List, ◌∷◌, Bool, true, false, ◌&&◌, ◌==◌, ==_iff, if◌then◌else◌,
}
use mathlib.Core.Path.{subst}
use pedge.Exceptions.{Result, ok, ok-injective}
use pedge.Python.Bytes.{Bytes, Str}
use pedge.Cipher.{XtsAes, IsXtsAes}
use pedge.State.{Page, Nvs, Value, Encoding, version2}
use pedge.Page.Shape.{FitsKey}
use pedge.Nvs.Monad.{Action, lift, cur_page, head_page, on_cur_page, ◌>>=◌}
use pedge.Nvs.Space.{Sound}
use pedge.Varlen.{write_by_kind, write_varlen_on, write_varlen_data, write_varlen_binary_data}
use pedge.Varlen.Headers.{
  entries_for, value_length, is_blob, check_varlen, varlen_header, write_single_page_entry,
}
use pedge.Varlen.Safe.{FitsValue}
use pedge.Stored.Layout.Chunk.{Keyed, varlen_header-Keyed}
use pedge.Stored.Held.{Holds}
use pedge.Stored.Steps.{>>=_done}
use pedge.Stored.Blob.{raw, length-raw, BlobThere}
use pedge.Stored.Blob.Rounds.{write_varlen_binary_data-BlobThere}

-- What a blob is in the pages of an object.
abbrev BlobIn : ℕ → Str → Value → Nvs → Type 0
BlobIn ns key v n = BlobThere (λ bs. Holds bs n.pages) ns key (raw v)

write_by_kind-BlobIn :
    (xts : XtsAes) (ns : ℕ) (key : Str) (v : Value) (encoding : Encoding) (p : Page) (es : Bytes)
    (total left : ℕ) (n : Nvs)
    → IsXtsAes xts
    → FitsKey key
    → FitsValue v
    → Sound total left n
    → n.encrypt ≡ false
    → p.version ≡ version2
    → is_blob encoding ≡ true
    → Keyed ns key es
    → (write_by_kind xts v encoding p es n).0 ≡ ok tt
    → BlobIn ns key v (write_by_kind xts v encoding p es n).1
unfolding write_by_kind
write_by_kind-BlobIn xts ns key v encoding p es total left n laws fits_key fits s clear two blob k =
    let size = value_length v in
    let rest = λ (b : Bool).
      if b
      then write_varlen_binary_data xts es v size
      else on_cur_page (write_single_page_entry xts es v size (entries_for size)) in
    let chosen : (p.version == version2 && is_blob encoding) ≡ true =
      rw ((==_iff p.version version2).1 two) blob in
    subst (λ (b : Bool). (rest b n).0 ≡ ok tt → BlobIn ns key v (rest b n).1) (sym chosen)
      (write_varlen_binary_data-BlobThere xts laws ns key fits_key.short v fits size es total left n
        (sym (length-raw v)) s clear k)

-- If `write_varlen_data` returns for a blob, on a sound object that does not encrypt and whose page
-- has version 2, the blob stands in the pages: its bytes cut into chunks that are numbered from 0,
-- each after an entry with its size and checksum, and an index with the size of all and the number of
-- the chunks, if the key fits and a text is ASCII.
pub write_varlen_data-BlobIn :
    (xts : XtsAes) (key : Str) (v : Value) (encoding : Encoding) (ns total left : ℕ) (n : Nvs)
    (p : Page) (ps : List Page)
    → IsXtsAes xts
    → FitsKey key
    → FitsValue v
    → Sound total left n
    → n.encrypt ≡ false
    → n.pages ≡ p ∷ ps
    → p.version ≡ version2
    → is_blob encoding ≡ true
    → (write_varlen_data xts key v encoding ns n).0 ≡ ok tt
    → BlobThere (λ bs. Holds bs (write_varlen_data xts key v encoding ns n).1.pages) ns key (raw v)
unfolding write_varlen_data write_varlen_on
write_varlen_data-BlobIn xts key v encoding ns total left n p ps laws fits_key fits s clear e two
      blob =
    let Q = λ (out : Result (Unit {0}) × Nvs). BlobIn ns key v out.1 in
    >>=_done Q cur_page (write_varlen_on xts key v encoding ns) n λ self found.
      let same : p ≡ self = ok-injective (sym (ap head_page e) ∙ found) in
      let self_two : self.version ≡ version2 =
        subst (λ (r : Page). r.version ≡ version2) same two in
      let count = entries_for (value_length v) in
      let built = varlen_header self.version key count encoding ns in
      let rest : Action (Unit {0}) = lift built >>= write_by_kind xts v encoding self in
      >>=_done Q (lift (check_varlen self v encoding)) (λ _. rest) n
        λ u checked. >>=_done Q (lift built) (write_by_kind xts v encoding self) n λ es made.
          write_by_kind-BlobIn xts ns key v encoding self es total left n laws fits_key fits s clear
            self_two blob
            (varlen_header-Keyed key count ns encoding fits_key blob
              (ap (λ (k : ℕ). varlen_header k key count encoding ns) (sym self_two) ∙ made))
