-- ===== src/Stored/Partition.antt =====
-- The loop of `generate` over the rows, in the clear: every row ends up in the pages.
use pedge.Prelude.{
  All, ℕ, ◌+◌, ◌≡◌, ◌∙◌, refl, arith, List, [], ◌∷◌, Bool, true, false, Option, none, some, pos,
  ltb, length, if◌then◌else◌,
}
use mathlib.Core.Path.{subst}
use pedge.Exceptions.{Result, ok, or_raise, or_raise-eq-ok, type_error, input_error, key_too_long}
use pedge.Python.Bytes.{Str}
use pedge.Cipher.{XtsAes, IsXtsAes}
use pedge.State.{Nvs, Value, u8, to_encoding}
use pedge.Page.Shape.{FitsKey}
use pedge.Nvs.Monad.{Action, lift, raise_if, ◌>>◌}
use pedge.Nvs.Space.{Sound}
use pedge.Nvs.Reach.{OnOk}
use pedge.Entries.{
  Files, write_primitive, write_namespace, write_entry, write_row_entry, convert, lower, row_value,
  is_type, write_converted,
}
use pedge.Entries.Primitive.{write_primitive-Safe}
use pedge.Entries.Frame.{write_entry-Frames, write_namespace-counts}
use pedge.Entries.Safe.{FitsInput, FitsOption, convert-FitsOption}
use pedge.Generate.{Row, exit_on_input_error, write_row, write_rows}
use pedge.Generate.Accepted.{exit_on_input_error-ok}
use pedge.Generate.Rows.{FitsRow, exit_on_input_error-Safe, write_row-Safe, write_rows-Keeps}
use pedge.Stored.{number_format}
use pedge.Stored.Layout.Number.{IsNumberEntry}
use pedge.Stored.Held.{Holds, Kept-Holds}
use pedge.Stored.Steps.{Reach-encrypt, >>=_done, or_on_new_page-Leaves}
use pedge.Stored.Entries.{write_primitive-Leaves}
use pedge.Stored.Rows.{EntryThere, KeyThere, RowsThere, RowThere-map}
use pedge.Stored.Values.{write_converted-There}

module _ (xts : XtsAes) (laws : IsXtsAes xts) (files : Files) (row : Row) (total left : ℕ) (n : Nvs)
    (s : Sound total left n) (clear : n.encrypt ≡ false) where
  -- What a call for the row leaves, if it returned.
  abbrev RowDone : Bool → Str → Result (Unit {0}) × Nvs → Type 0
  RowDone b key out =
      KeyThere b (λ bs. Holds bs out.1.pages) files n.namespace_idx row key
      × (out.1.namespace_idx ≡ (if b then n.namespace_idx + 1 else n.namespace_idx))

  write_namespace-RowDone :
      (key : Str)
      → FitsKey key
      → (write_namespace xts key n).0 ≡ ok tt
      → RowDone true key (write_namespace xts key n)
  unfolding write_namespace
  write_namespace-RowDone key fits done =
      let counted = record n { namespace_idx = n.namespace_idx + 1 } in
      let sound : Sound total left counted = record {
        size = s.size;
        count = s.count;
        page_num = s.page_num;
        pages = s.pages;
        small = s.small;
      } in
      let v = pos (n.namespace_idx + 1) in
      (
        or_on_new_page-Leaves (λ bs. IsNumberEntry 0 key v bs (number_format u8))
            (write_primitive xts key v u8 0) (write_primitive-Safe xts laws key fits v u8 0)
            (write_primitive-Leaves xts laws key fits v u8 0 (λ h. cc)) total left counted sound
            clear done,
        write_namespace-counts xts key n,
      )

  write_entry-RowDone :
      (key : Str) (v : Option Value) (encoding : Option Str)
      → FitsKey key
      → row.encoding ≡ encoding
      → row_value files (is_type "file" row.datatype) row.value ≡ ok v
      → ((e : Str) → row.encoding ≡ some e → FitsInput (to_encoding e) v)
      → (write_entry xts key v encoding n).0 ≡ ok tt
      → RowDone false key (write_entry xts key v encoding n)
  unfolding write_entry
  write_entry-RowDone key v none fits is read h done = cc
  write_entry-RowDone key v (some e) fits is read h done =
      let kind = to_encoding (lower e) in
      (
        >>=_done (λ out. EntryThere (λ bs. Holds bs out.1.pages) files n.namespace_idx row key)
            (lift (convert (to_encoding e) v)) (λ w. write_converted xts key w kind) n
            (λ w converted returned. (
              e,
              v,
              w,
              is,
              read,
              converted,
              write_converted-There xts laws key fits total left n s clear w kind
                  (converted_fits (convert (to_encoding e) v) converted
                    (convert-FitsOption (to_encoding e) v (h e is)))
                  returned,
            ))
            done,
        write_entry-Frames xts key v (some e) n,
      )
    where
      converted_fits :
          {w : Option Value} (r : Result (Option Value))
          → r ≡ ok w
          → OnOk r FitsOption
          → FitsOption w
      converted_fits r e h = subst (λ k. OnOk k FitsOption) e h

  typed-RowDone :
      (key : Str) (v : Option Value)
      → FitsKey key
      → FitsRow files row
      → row_value files (is_type "file" row.datatype) row.value ≡ ok v
      → (b : Bool)
      → ((if b then write_namespace xts key else write_entry xts key v row.encoding) n).0 ≡ ok tt
      → RowDone b key
          ((if b then write_namespace xts key else write_entry xts key v row.encoding) n)
  typed-RowDone key v fits_key fits read true returned =
      write_namespace-RowDone key fits_key returned
  typed-RowDone key v fits_key fits read false returned =
      write_entry-RowDone key v row.encoding fits_key refl read
        (λ e is. fits.fits_value e v is read) returned

  write_row-RowDone :
      FitsRow files row
      → (write_row xts files row n).0 ≡ ok tt
      → (key : Str) × (row.key ≡ some key)
        × RowDone (is_type "namespace" row.datatype) key (write_row xts files row n)
  unfolding write_row write_row_entry
  write_row-RowDone fits =
      let spaced = is_type "namespace" row.datatype in
      let by_type : Str → Option Value → Action (Unit {0}) =
        λ key v. if spaced then write_namespace xts key else write_entry xts key v row.encoding in
      let written : Str → Action (Unit {0}) =
        λ key. write_row_entry xts files key row.datatype row.encoding row.value in
      let checked : Str → Action (Unit {0}) =
        λ key. raise_if (ltb 15 (length key)) (input_error key_too_long) >> written key in
      let Q = λ (out : Result (Unit {0}) × Nvs).
        (key : Str) × (row.key ≡ some key) × RowDone spaced key out in
      >>=_done Q (lift (or_raise row.key type_error)) checked n λ key found.
        >>=_done Q (raise_if (ltb 15 (length key)) (input_error key_too_long)) (λ _. written key) n
          λ u short.
            let given = or_raise-eq-ok row.key type_error found in
            let fits_key : FitsKey key = record {
              ascii = fits.fits_key key given;
              short = ground (arith, short);
            } in
            >>=_done Q (lift (row_value files (is_type "file" row.datatype) row.value))
              (by_type key) n
              λ v read returned.
                (key, given, typed-RowDone key v fits_key fits read spaced returned)

  -- The same, once the exceptions that end the program are told apart.
  exit_on_input_error-RowDone :
      FitsRow files row
      → (exit_on_input_error (write_row xts files row) n).0 ≡ ok tt
      → (key : Str) × (row.key ≡ some key)
        × RowDone
            (is_type "namespace" row.datatype)
            key
            (exit_on_input_error (write_row xts files row) n)
  unfolding exit_on_input_error
  exit_on_input_error-RowDone fits done =
      write_row-RowDone fits (exit_on_input_error-ok xts files (write_row xts files row) n done)

module _ (xts : XtsAes) (laws : IsXtsAes xts) (files : Files) where
  -- The loop over the rows, if it returned, has left every one of them in the pages.
  pub write_rows-RowsThere :
      (rows : List Row) (total left : ℕ) (n : Nvs)
      → All (FitsRow files) rows
      → Sound total left n
      → n.encrypt ≡ false
      → (write_rows xts files rows n).0 ≡ ok tt
      → RowsThere (λ bs. Holds bs (write_rows xts files rows n).1.pages) files n.namespace_idx rows
  unfolding write_rows
  write_rows-RowsThere [] total left n fits s clear done = tt
  write_rows-RowsThere (row ∷ rows) total left n fits s clear done =
      let step = exit_on_input_error (write_row xts files row) in
      let rest = write_rows xts files rows in
      let n' = (step n).1 in
      let (w, k) =
        exit_on_input_error-Safe xts laws files (write_row xts files row)
          (write_row-Safe xts laws files row fits.0) total left n s in
      let (w', later) = write_rows-Keeps xts files rows total w.left n' laws fits.1 w.sound in
      >>=_done (λ out. RowsThere (λ bs. Holds bs out.1.pages) files n.namespace_idx (row ∷ rows))
        step (λ _. rest) n
        (λ u ran returned.
          let (key, is, both) =
            exit_on_input_error-RowDone xts laws files row total left n s clear fits.0 ran in
          (
            RowThere-map (λ bs. Holds bs n'.pages) (λ bs. Holds bs (rest n').1.pages)
                (λ bs. Kept-Holds bs later) files n.namespace_idx row (key, is, both.0),
            subst (λ (ns : ℕ). RowsThere (λ bs. Holds bs (rest n').1.pages) files ns rows) both.1
                (write_rows-RowsThere rows total w.left n' fits.1 w.sound
                  (Reach-encrypt w.path ∙ clear) returned),
          ))
        done
