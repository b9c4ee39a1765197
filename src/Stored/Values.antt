-- ===== src/Stored/Values.antt =====
-- Converted values, written in the clear, end up in the pages.
use pedge.Prelude.{ℕ, ◌≡◌, ◌≢◌, sym, false, Option, none, some, ℤ}
use mathlib.Core.Path.{subst}
use pedge.Exceptions.{Result, ok, or_raise, or_raise-eq-ok, type_error}
use pedge.Python.Bytes.{Bytes, Str}
use pedge.Cipher.{XtsAes, IsXtsAes}
use pedge.State.{
  Nvs, Value, Encoding, u8, i8, u16, i16, u32, i32, u64, i64, string_encoding, binary_encoding,
  hex2bin, base64, unsupported,
}
use pedge.Page.Shape.{FitsKey}
use pedge.Nvs.Monad.{lift, ◌>>=◌, >>=_lem}
use pedge.Nvs.Space.{Sound}
use pedge.Varlen.{write_varlen_data}
use pedge.Varlen.Data.{write_varlen_data-Safe}
use pedge.Entries.{or_on_new_page, write_primitive, write_supported, write_converted, int_value}
use pedge.Entries.Primitive.{write_primitive-Safe}
use pedge.Entries.Safe.{FitsOption}
use pedge.Stored.{number_format}
use pedge.Stored.Layout.Number.{IsNumberEntry}
use pedge.Stored.Held.{Holds}
use pedge.Stored.Steps.{Left, or_on_new_page-Leaves}
use pedge.Stored.Entries.{IsStringEntry, write_primitive-Leaves, write_varlen_data-Leaves}
use pedge.Stored.Rows.{NumberThere, ValueThere}

module _ (xts : XtsAes) (laws : IsXtsAes xts) (key : Str) (fits_key : FitsKey key) (total left : ℕ)
    (n : Nvs) (s : Sound total left n) (clear : n.encrypt ≡ false) where
  write_number-There :
      (w : Option Value) (e : Encoding) (ns : ℕ)
      → number_format e ≢ none
      → (let out : Result (Unit {0}) × Nvs =
            (lift (int_value w) >>= λ i. or_on_new_page (write_primitive xts key i e ns)) n in
          out.0 ≡ ok tt → NumberThere (λ bs. Holds bs out.1.pages) ns key w e)
  write_number-There w e ns is done =
      let write = λ (i : ℤ). or_on_new_page (write_primitive xts key i e ns) in
      let (i, read, both) = >>=_lem (lift (int_value w)) write n done in
      let P = λ (bs : Bytes). IsNumberEntry ns key i bs (number_format e) in
      let left_by : Left P ((lift (int_value w) >>= write) n) = subst (Left P) (sym both) (
        or_on_new_page-Leaves P (write_primitive xts key i e ns)
          (write_primitive-Safe xts laws key fits_key i e ns)
          (write_primitive-Leaves xts laws key fits_key i e ns is) total left n s clear) in
      (i, read, left_by done)

  write_string-There :
      (w : Option Value) (ns : ℕ)
      → FitsOption w
      → (let out : Result (Unit {0}) × Nvs =
            (lift (or_raise w type_error) >>= λ v.
            or_on_new_page (write_varlen_data xts key v string_encoding ns))
              n in
          out.0 ≡ ok tt → ValueThere (λ bs. Holds bs out.1.pages) ns key w string_encoding)
  write_string-There w ns fits done =
      let write = λ (v : Value). or_on_new_page (write_varlen_data xts key v string_encoding ns) in
      let (v, is, both) = >>=_lem (lift (or_raise w type_error)) write n done in
      let given : w ≡ some v = or_raise-eq-ok w type_error is in
      let fits_value = subst FitsOption given fits in
      let P = IsStringEntry key ns v in
      let left_by : Left P ((lift (or_raise w type_error) >>= write) n) =
        subst (Left P) (sym both) (
          or_on_new_page-Leaves P (write_varlen_data xts key v string_encoding ns)
            (write_varlen_data-Safe xts laws key fits_key v fits_value string_encoding ns)
            (write_varlen_data-Leaves xts laws key fits_key v fits_value ns) total left n s
            clear) in
      (v, given, left_by done)

  pub write_converted-There :
      (w : Option Value) (e : Encoding)
      → FitsOption w
      → (let out : Result (Unit {0}) × Nvs = write_converted xts key w e n in
          out.0 ≡ ok tt → ValueThere (λ bs. Holds bs out.1.pages) n.namespace_idx key w e)
  unfolding write_converted write_supported
  write_converted-There w unsupported fits done = cc
  write_converted-There w hex2bin fits done = tt
  write_converted-There w base64 fits done = tt
  write_converted-There w binary_encoding fits done = tt
  write_converted-There w string_encoding fits done = write_string-There w n.namespace_idx fits done
  write_converted-There w u8 fits done = write_number-There w u8 n.namespace_idx (λ h. cc) done
  write_converted-There w i8 fits done = write_number-There w i8 n.namespace_idx (λ h. cc) done
  write_converted-There w u16 fits done = write_number-There w u16 n.namespace_idx (λ h. cc) done
  write_converted-There w i16 fits done = write_number-There w i16 n.namespace_idx (λ h. cc) done
  write_converted-There w u32 fits done = write_number-There w u32 n.namespace_idx (λ h. cc) done
  write_converted-There w i32 fits done = write_number-There w i32 n.namespace_idx (λ h. cc) done
  write_converted-There w u64 fits done = write_number-There w u64 n.namespace_idx (λ h. cc) done
  write_converted-There w i64 fits done = write_number-There w i64 n.namespace_idx (λ h. cc) done
