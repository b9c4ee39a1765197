-- ===== src/Entries/Safe.antt =====
-- `NVS.write_entry` and its branches, as steps of the object.
use pedge.Prelude.{
  ℕ, ◌≡◌, arith, [], ◌∷◌, ◌++◌, Bool, true, false, Option, none, some, ◌||◌, if◌then◌else◌, ℤ,
}
use pedge.Exceptions.{Result, ok, err, or_raise, type_error, ◌>>=◌}
use pedge.Python.Bytes.{Bytes, Str}
use pedge.Python.Utf8.{IsAscii, decode}
use pedge.Cipher.{XtsAes, IsXtsAes}
use pedge.State.{
  Nvs, Value, text, binary, Encoding, u8, i8, u16, i16, u32, i32, u64, i64, string_encoding,
  binary_encoding, hex2bin, base64, unsupported, to_encoding,
}
use pedge.Page.Shape.{FitsKey}
use mathlib.Core.Path.{subst}
use pedge.Nvs.Monad
use pedge.Nvs.Monad.{Action, lift}
use pedge.Nvs.Space.{Sound}
use pedge.Nvs.Reach.{Went-refl, Safe, OnOk}
use pedge.Nvs.Keeps.{Keeps, Went-Keeps}
use pedge.Nvs.Rules.{Good, lift-Good}
use pedge.Varlen.{write_varlen_data}
use pedge.Varlen.Headers.{is_blob, is_string}
use pedge.Varlen.Safe.{FitsValue}
use pedge.Varlen.Data.{write_varlen_data-Safe}
use pedge.Entries.{
  or_on_new_page, write_primitive, write_supported, write_converted, write_entry, convert,
  convert_value, hex2bin_bytes, base64_bytes, int_value, lower,
}
use pedge.Entries.Primitive.{or_on_new_page-Safe, write_primitive-Safe}

-- Texts that are written as they are, or with a zero after them, are ASCII: also the one that the
-- bytes of a string read from a file decode to, if they do.
abbrev pub FitsInput : Encoding → Option Value → Type 0
FitsInput string_encoding (some (binary bs)) = OnOk (decode bs) IsAscii
FitsInput e none = Unit
FitsInput e (some v) = FitsValue v

binary-FitsValue : (r : Result Bytes) → OnOk (r >>= λ bs. ok (binary bs)) FitsValue
binary-FitsValue (ok bs) = tt
binary-FitsValue (err e) = tt

pub IsAscii-zero : (s : Str) → IsAscii s → IsAscii (s ++ (0 ∷ []))
IsAscii-zero [] h = (omega arith, tt)
IsAscii-zero (c ∷ s) h = (h.0, IsAscii-zero s h.1)

text-FitsValue :
    (r : Result Str) → OnOk r IsAscii → OnOk (r >>= λ s. ok (text (s ++ (0 ∷ [])))) FitsValue
text-FitsValue (ok s) h = IsAscii-zero s h
text-FitsValue (err e) h = tt

convert_value-FitsValue :
    (e : Encoding) (v : Value) → FitsInput e (some v) → OnOk (convert_value e v) FitsValue
unfolding convert_value
convert_value-FitsValue hex2bin v h = binary-FitsValue (hex2bin_bytes v)
convert_value-FitsValue base64 v h = binary-FitsValue (base64_bytes v)
convert_value-FitsValue string_encoding (text s) h = IsAscii-zero s h
convert_value-FitsValue string_encoding (binary bs) h = text-FitsValue (decode bs) h
convert_value-FitsValue u8 v h = h
convert_value-FitsValue i8 v h = h
convert_value-FitsValue u16 v h = h
convert_value-FitsValue i16 v h = h
convert_value-FitsValue u32 v h = h
convert_value-FitsValue i32 v h = h
convert_value-FitsValue u64 v h = h
convert_value-FitsValue i64 v h = h
convert_value-FitsValue binary_encoding v h = h
convert_value-FitsValue unsupported v h = h

abbrev pub FitsOption : Option Value → Type 0
FitsOption none = Unit
FitsOption (some v) = FitsValue v

some-FitsOption : (r : Result Value) → OnOk r FitsValue → OnOk (r >>= λ w. ok (some w)) FitsOption
some-FitsOption (ok v) h = h
some-FitsOption (err e) h = tt

pub convert-FitsOption :
    (e : Encoding) (v : Option Value) → FitsInput e v → OnOk (convert e v) FitsOption
unfolding convert
convert-FitsOption e (some v) h =
    some-FitsOption (convert_value e v) (convert_value-FitsValue e v h)
convert-FitsOption hex2bin none h = tt
convert-FitsOption base64 none h = tt
convert-FitsOption string_encoding none h = tt
convert-FitsOption e none h = tt

module _ (xts : XtsAes) (laws : IsXtsAes xts) (key : Str) (fits_key : FitsKey key) where
  write_supported-Safe :
      (w : Option Value) (e : Encoding) (ns_index : ℕ)
      → FitsOption w
      → Safe (write_supported xts key w e ns_index) (λ _. Unit)
  unfolding write_supported
  write_supported-Safe w e ns_index fits total left n s = split (is_string e || is_blob e) w fits
    where
      varlen : Value → Action (Unit {0})
      varlen v = or_on_new_page (write_varlen_data xts key v e ns_index)

      single : ℤ → Action (Unit {0})
      single i = or_on_new_page (write_primitive xts key i e ns_index)

      split :
          (b : Bool) (w : Option Value)
          → FitsOption w
          → Good total n
              ((if b
                  then Monad.◌>>=◌ (lift (or_raise w type_error)) varlen
                  else Monad.◌>>=◌ (lift (int_value w)) single)
                n)
              (λ _. Unit)
      split true none h = (Went-refl n s, tt)
      split true (some v) h =
          or_on_new_page-Safe (write_varlen_data xts key v e ns_index)
            (write_varlen_data-Safe xts laws key fits_key v h e ns_index) total left n s
      split false w h =
          lift-Good (int_value w) single (λ _. Unit) total left n s
            λ i e'.
              or_on_new_page-Safe (write_primitive xts key i e ns_index)
                (write_primitive-Safe xts laws key fits_key i e ns_index) total left n s

  write_converted-Safe :
      (w : Option Value) (e : Encoding)
      → FitsOption w
      → Safe (write_converted xts key w e) (λ _. Unit)
  unfolding write_converted
  write_converted-Safe w unsupported fits total left n s = (Went-refl n s, tt)
  write_converted-Safe w e fits total left n s =
      write_supported-Safe w e n.namespace_idx fits total left n s

  -- `NVS.write_entry` takes steps only.
  pub write_entry-Safe :
      (v : Option Value) (encoding : Str)
      → FitsInput (to_encoding encoding) v
      → Safe (write_entry xts key v (some encoding)) (λ _. Unit)
  unfolding write_entry
  write_entry-Safe v encoding fits total left n s =
      lift-Good (convert (to_encoding encoding) v)
        (λ w. write_converted xts key w (to_encoding (lower encoding))) (λ _. Unit) total left n s
        λ w e.
          write_converted-Safe w (to_encoding (lower encoding))
            (fitting (convert (to_encoding encoding) v) e
              (convert-FitsOption (to_encoding encoding) v fits))
            total left n s
    where
      fitting :
          {w : Option Value} (r : Result (Option Value))
          → r ≡ ok w
          → OnOk r FitsOption
          → FitsOption w
      fitting r e h = subst (λ k. OnOk k FitsOption) e h

-- After `NVS.write_entry`, whether it returned or raised, the object is sound, was reached by steps
-- and has every entry that it had before, if the key fits and a written text is ASCII: the value, if it is a text, or what
-- the bytes of a string decode to.
pub write_entry-Keeps :
    (xts : XtsAes) (key : Str) (v : Option Value) (encoding : Str) (total left : ℕ) (n : Nvs)
    → IsXtsAes xts
    → FitsKey key
    → FitsInput (to_encoding encoding) v
    → Sound total left n
    → Keeps total n (write_entry xts key v (some encoding) n).1
write_entry-Keeps xts key v encoding total left n laws fits_key fits s =
    Went-Keeps (write_entry-Safe xts laws key fits_key v encoding fits total left n s).0
