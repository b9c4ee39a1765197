-- ===== src/Generate/Rows.antt =====
-- The loop of `generate` over the rows, as steps of the object.
use pedge.Prelude.{
  All, ℕ, ◌≡◌, refl, arith, length, List, [], ◌∷◌, Bool, true, false, Option, none, some, ltb,
  if◌then◌else◌,
}
use pedge.Exceptions.{
  or_raise-eq-ok, Result, ok, err, or_raise, type_error, input_error, key_too_long,
}
use pedge.Python.Bytes.{Str}
use pedge.Python.Utf8.{IsAscii}
use pedge.Cipher.{XtsAes, IsXtsAes}
use pedge.State.{Nvs, Value, to_encoding}
use pedge.Page.Shape.{FitsKey}
use pedge.Nvs.Monad
use pedge.Nvs.Monad.{Action, lift, raise_if}
use pedge.Nvs.Space.{Sound}
use pedge.Nvs.Reach.{Went-refl, Safe, OnOk, Safe->>=}
use pedge.Nvs.Keeps.{Keeps, Went-Keeps}
use pedge.Nvs.Rules.{Good, lift-Good, raise_if-Good}
use pedge.Entries.{Files, is_type, row_value, write_namespace, write_entry, write_row_entry}
use pedge.Entries.Primitive.{write_namespace-Safe}
use pedge.Entries.Safe.{FitsInput, write_entry-Safe}
use pedge.Generate.{Row, exit_if_input_error, exit_on_input_error, write_row, write_rows}

-- The key of a row is ASCII, and so is the text that it has written, also where it is a string read
-- from a file.
pub record FitsRow (files : Files) (row : Row) : Type 0 where
  pub fits_key : (key : Str) → row.key ≡ some key → IsAscii key
  pub fits_value :
      (e : Str) (v : Option Value)
      → row.encoding ≡ some e
      → row_value files (is_type "file" row.datatype) row.value ≡ ok v
      → FitsInput (to_encoding e) v

module _ (xts : XtsAes) (laws : IsXtsAes xts) (files : Files) where
  write_entry_row-Safe :
      (key : Str) (encoding : Option Str) (v : Option Value)
      → FitsKey key
      → ((e : Str) → encoding ≡ some e → FitsInput (to_encoding e) v)
      → Safe (write_entry xts key v encoding) (λ _. Unit)
  unfolding write_entry
  write_entry_row-Safe key none v fits h total left n s = (Went-refl n s, tt)
  write_entry_row-Safe key (some e) v fits h total left n s =
      write_entry-Safe xts laws key fits v e (h e refl) total left n s

  write_row_entry-Safe :
      (row : Row) (key : Str)
      → FitsKey key
      → FitsRow files row
      → Safe (write_row_entry xts files key row.datatype row.encoding row.value) (λ _. Unit)
  unfolding write_row_entry
  write_row_entry-Safe row key fits h total left n s =
      lift-Good (row_value files (is_type "file" row.datatype) row.value) by_type (λ _. Unit) total
        left n s
        λ v e.
          split (is_type "namespace" row.datatype) v (λ enc is_enc. h.fits_value enc v is_enc e)
    where
      by_type : Option Value → Action (Unit {0})
      by_type v =
          if is_type "namespace" row.datatype
          then write_namespace xts key
          else write_entry xts key v row.encoding

      split :
          (b : Bool) (v : Option Value)
          → ((e : Str) → row.encoding ≡ some e → FitsInput (to_encoding e) v)
          → Good total n
              ((if b then write_namespace xts key else write_entry xts key v row.encoding) n)
              (λ _. Unit)
      split true v k = write_namespace-Safe xts laws key fits total left n s
      split false v k = write_entry_row-Safe key row.encoding v fits k total left n s

  pub write_row-Safe : (row : Row) → FitsRow files row → Safe (write_row xts files row) (λ _. Unit)
  unfolding write_row
  write_row-Safe row h total left n s =
      lift-Good (or_raise row.key type_error) checked (λ _. Unit) total left n s
        λ key e.
          raise_if-Good (ltb 15 (length key)) (input_error key_too_long) (written key) (λ _. Unit)
            total left n s
            λ short.
              write_row_entry-Safe row key
                (record {
                  ascii = h.fits_key key (or_raise-eq-ok row.key type_error e);
                  short = ground arith;
                })
                h total left n s
    where
      written : Str → Action (Unit {0})
      written key = write_row_entry xts files key row.datatype row.encoding row.value

      checked : Str → Action (Unit {0})
      checked key =
          Monad.◌>>◌ (raise_if (ltb 15 (length key)) (input_error key_too_long)) (written key)

  pub exit_on_input_error-Safe :
      (m : Action (Unit {0})) → Safe m (λ _. Unit) → Safe (exit_on_input_error m) (λ _. Unit)
  unfolding exit_on_input_error
  exit_on_input_error-Safe m h total left n s =
      ((h total left n s).0, any (exit_if_input_error (m n).0))
    where
      any : (r : Result (Unit {0})) → OnOk r (λ _. Unit {0})
      any (ok a) = tt
      any (err e) = tt

  pub write_rows-Safe :
      (rows : List Row) → All (FitsRow files) rows → Safe (write_rows xts files rows) (λ _. Unit)
  unfolding write_rows
  write_rows-Safe [] h total left n s = (Went-refl n s, tt)
  write_rows-Safe (row ∷ rows) h total left n s =
      Safe->>= (exit_on_input_error (write_row xts files row)) (λ _. write_rows xts files rows)
        (λ _. Unit) (λ _. Unit)
        (exit_on_input_error-Safe (write_row xts files row) (write_row-Safe row h.0))
        (λ _ _. write_rows-Safe rows h.1) total left n s

-- After the loop over the rows, however it ended, the object is sound, was reached by steps and has
-- every entry that it had before, if the keys and the written texts are ASCII, those of strings read
-- from files too.
pub write_rows-Keeps :
    (xts : XtsAes) (files : Files) (rows : List Row) (total left : ℕ) (n : Nvs)
    → IsXtsAes xts
    → All (FitsRow files) rows
    → Sound total left n
    → Keeps total n (write_rows xts files rows n).1
write_rows-Keeps xts files rows total left n laws fits s =
    Went-Keeps (write_rows-Safe xts laws files rows fits total left n s).0
