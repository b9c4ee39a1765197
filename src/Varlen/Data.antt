-- ===== src/Varlen/Data.antt =====
-- `write_varlen_data`: its tests, and its branches as steps of the object.
use pedge.Prelude.{
  ℕ, ◌+◌, ◌<◌, ◌≡◌, refl, arith, length, List, ◌∷◌, Bool, true, false, ◌&&◌, ◌||◌, not, ltb, ◌==◌,
  if◌then◌else◌,
}
use pedge.Exceptions.{
  guard-eq-ok, Result, ok, guard, or_raise, Exception, key_error, input_error, size_exceeds_max,
  page_full_error, ◌>>=◌, >>=-eq-ok,
}
use pedge.Python.Bytes.{Bytes, Str}
use pedge.Cipher.{XtsAes, IsXtsAes}
use pedge.State.{Page, Nvs, Value, Encoding, max_blob_size, version1, version2}
use pedge.Page.Shape.{FitsKey}
use pedge.Nvs.Monad.{Action, on_cur_page, lift}
use pedge.Nvs.Monad
use pedge.Nvs.Space.{Sound}
use pedge.Nvs.Reach.{Safe}
use pedge.Nvs.Keeps.{Keeps, Went-Keeps}
use pedge.Nvs.Rules.{
  Good, head-IsValid, cur_page-Good, lift-Good, on_cur_page-Good_last, OnOk-intro,
}
use pedge.Varlen.{write_by_kind, write_varlen_on, write_varlen_data, write_varlen_binary_data}
use pedge.Varlen.Headers.{
  entries_for, value_length, write_single_page_entry, varlen_header, check_varlen, is_blob,
  is_string,
}
use pedge.Varlen.Safe.{FitsValue, length-varlen_header, write_single_page_entry-Written}
use pedge.Varlen.Steps.{blob_loop-Safe}

guard_then-eq-ok :
    {A : Type 0} (b : Bool) (e : Exception) (k : Result A) {a : A}
    → (guard b e >>= λ _. k) ≡ ok a
    → (b ≡ true) × (k ≡ ok a)
guard_then-eq-ok true e k h = (refl, h)
guard_then-eq-ok false e k h = cc

-- What passes the tests of `write_varlen_data` fits the page whole, with its header, unless it is
-- a blob of version 2.
pub check_varlen-room :
    (p : Page) (v : Value) (encoding : Encoding) {u : Unit {0}}
    → check_varlen p v encoding ≡ ok u
    → (p.version == version2 && is_blob encoding) ≡ false
    → p.entry_num + 1 + entries_for (value_length v) < 126
unfolding check_varlen
check_varlen-room p v encoding h single =
    let fits_page =
      ltb (p.entry_num + (entries_for (value_length v) + 1)) 126
      || (p.version == version2 && is_blob encoding) in
    let last : Result (Unit {0}) = guard fits_page page_full_error in
    let middle : Result (Unit {0}) = guard (ltb p.entry_num 126) page_full_error >>= λ _. last in
    let applies = p.version == version1 || is_string encoding in
    let (limit, p₁, h₁) =
      >>=-eq-ok (or_raise (max_blob_size p.version) key_error)
        (λ limit.
          guard (not (applies && ltb limit (value_length v))) (input_error size_exceeds_max)
          >>= λ _. middle)
        h in
    let (small, h₂) =
      guard_then-eq-ok (not (applies && ltb limit (value_length v))) (input_error size_exceeds_max)
        middle h₁ in
    let (room, h₃) = guard_then-eq-ok (ltb p.entry_num 126) page_full_error last h₂ in
    let fits = guard-eq-ok fits_page page_full_error h₃ in ground (arith, fits, single)

module _ (xts : XtsAes) (laws : IsXtsAes xts) (key : Str) (fits_key : FitsKey key) (v : Value)
    (fits : FitsValue v) (encoding : Encoding) where
  write_by_kind-Good :
      (p : Page) (ps : List Page) (es : Bytes) (total left : ℕ) (n : Nvs) {u : Unit {0}}
      → Sound total left n
      → n.pages ≡ p ∷ ps
      → length es ≡ 32
      → check_varlen p v encoding ≡ ok u
      → Good total n (write_by_kind xts v encoding p es n) (λ _. Unit)
  unfolding write_by_kind write_varlen_binary_data
  write_by_kind-Good p ps es total left n s e len checked =
      split (p.version == version2 && is_blob encoding) (check_varlen-room p v encoding checked)
    where
      size : ℕ
      size = value_length v

      single : Nvs → Page → Result (Unit {0} × Page)
      single = write_single_page_entry xts es v size (entries_for size)

      split :
          (b : Bool)
          → (b ≡ false → p.entry_num + 1 + entries_for size < 126)
          → Good total n
              ((if b then write_varlen_binary_data xts es v size else on_cur_page single) n)
              (λ _. Unit)
      split true room =
          blob_loop-Safe xts laws v fits size (size + 2) es 0 0 size len total left n s
      split false room =
          let free : p.entry_num + 1 + entries_for size < 126 = room refl in
          on_cur_page-Good_last single (λ _. Unit) total left n p ps s e
            (OnOk-intro (single n p) _ λ done stored.
              write_single_page_entry-Written xts laws n p es v (entries_for size) len fits
                (head-IsValid s e) (omega arith) (omega arith) stored)

  pub write_varlen_data-Safe :
      (ns_index : ℕ) → Safe (write_varlen_data xts key v encoding ns_index) (λ _. Unit)
  unfolding write_varlen_data write_varlen_on
  write_varlen_data-Safe ns_index total left n s =
      cur_page-Good (write_varlen_on xts key v encoding ns_index) (λ _. Unit) total left n s
        λ p ps e.
          let built =
            varlen_header p.version key (entries_for (value_length v)) encoding ns_index in
          let rest : Action (Unit {0}) =
            Monad.◌>>=◌ (lift built) (write_by_kind xts v encoding p) in
          lift-Good (check_varlen p v encoding) (λ _. rest) (λ _. Unit) total left n s
            λ u checked.
              lift-Good built (write_by_kind xts v encoding p) (λ _. Unit) total left n s
                λ es made.
                  write_by_kind-Good p ps es total left n s e
                    (length-varlen_header p.version key _ encoding ns_index fits_key made) checked

-- After `write_varlen_data`, whether it returned or raised, the object is sound, was reached by steps
-- and has every entry that it had before, if the key fits and a text is ASCII.
pub write_varlen_data-Keeps :
    (xts : XtsAes) (key : Str) (v : Value) (encoding : Encoding) (ns_index total left : ℕ) (n : Nvs)
    → IsXtsAes xts
    → FitsKey key
    → FitsValue v
    → Sound total left n
    → Keeps total n (write_varlen_data xts key v encoding ns_index n).1
write_varlen_data-Keeps xts key v encoding ns_index total left n laws fits_key fits s =
    Went-Keeps
      (write_varlen_data-Safe xts laws key fits_key v fits encoding ns_index total left n s).0
