-- ===== src/Stored/Rows.antt =====
-- The entries of the rows of the CSV file, in a place: the pages of an object, or an image.
use pedge.Prelude.{
  ℕ, ◌+◌, ◌≡◌, List, [], ◌∷◌, Bool, true, false, Option, some, ℤ, pos, if◌then◌else◌,
}
use pedge.Exceptions.{ok}
use pedge.Python.Bytes.{Bytes, Str}
use pedge.State.{
  Value, Encoding, u8, i8, u16, i16, u32, i32, u64, i64, string_encoding, binary_encoding, hex2bin,
  base64, unsupported, to_encoding,
}
use pedge.Entries.{Files, convert, int_value, lower, row_value, is_type}
use pedge.Generate.{Row}
use pedge.Stored.{number_format}
use pedge.Stored.Layout.Number.{IsNumberEntry}
use pedge.Stored.Entries.{IsStringEntry}

-- Some entry with the property stands in a place.
abbrev pub There : (Bytes → Type 0) → (Bytes → Type 0) → Type 0
There place P = (bs : Bytes) × P bs × place bs

-- A number's entry.
abbrev pub NumberThere : (Bytes → Type 0) → ℕ → Str → Option Value → Encoding → Type 0
NumberThere place ns key w e =
    (i : ℤ) × (int_value w ≡ ok i) × There place (λ bs. IsNumberEntry ns key i bs (number_format e))

-- The entry of a converted value; blobs are not described.
abbrev pub ValueThere : (Bytes → Type 0) → ℕ → Str → Option Value → Encoding → Type 0
ValueThere place ns key w unsupported = ⊥
ValueThere place ns key w hex2bin = Unit
ValueThere place ns key w base64 = Unit
ValueThere place ns key w binary_encoding = Unit
ValueThere place ns key w string_encoding =
    (v : Value) × (w ≡ some v) × There place (IsStringEntry key ns v)
ValueThere place ns key w e = NumberThere place ns key w e

-- The entry of a row with a value, under the index of the namespace that is open.
abbrev pub EntryThere : (Bytes → Type 0) → Files → ℕ → Row → Str → Type 0
EntryThere place files ns row key =
    (e : Str) × (v : Option Value) × (w : Option Value) × (row.encoding ≡ some e)
    × (row_value files (is_type "file" row.datatype) row.value ≡ ok v)
    × (convert (to_encoding e) v ≡ ok w)
    × ValueThere place ns key w (to_encoding (lower e))

-- The entry of a row: that of a namespace, a number of one byte in the namespace 0, holds the index
-- that is the next after `ns`.
abbrev pub KeyThere : Bool → (Bytes → Type 0) → Files → ℕ → Row → Str → Type 0
KeyThere true place files ns row key =
    There place (λ bs. IsNumberEntry 0 key (pos (ns + 1)) bs (number_format u8))
KeyThere false place files ns row key = EntryThere place files ns row key

abbrev pub RowThere : (Bytes → Type 0) → Files → ℕ → Row → Type 0
RowThere place files ns row =
    (key : Str) × (row.key ≡ some key)
    × KeyThere (is_type "namespace" row.datatype) place files ns row key

-- The index of the namespace that is open after a row.
abbrev pub next_namespace : Row → ℕ → ℕ
next_namespace row ns = if is_type "namespace" row.datatype then ns + 1 else ns

-- The entries of rows, from an index on.
abbrev pub RowsThere : (Bytes → Type 0) → Files → ℕ → List Row → Type 0
RowsThere place files ns [] = Unit
RowsThere place files ns (row ∷ rows) =
    RowThere place files ns row × RowsThere place files (next_namespace row ns) rows

module _ (place place' : Bytes → Type 0) (move : (bs : Bytes) → place bs → place' bs)
    (files : Files) where
  moved : {P : Bytes → Type 0} → There place P → There place' P
  moved (bs, p, h) = (bs, p, move bs h)

  ValueThere-map :
      (ns : ℕ) (key : Str) (w : Option Value) (e : Encoding)
      → ValueThere place ns key w e
      → ValueThere place' ns key w e
  ValueThere-map ns key w unsupported h = h
  ValueThere-map ns key w hex2bin h = h
  ValueThere-map ns key w base64 h = h
  ValueThere-map ns key w binary_encoding h = h
  ValueThere-map ns key w string_encoding (v, is, h) = (v, is, moved h)
  ValueThere-map ns key w u8 (i, is, h) = (i, is, moved h)
  ValueThere-map ns key w i8 (i, is, h) = (i, is, moved h)
  ValueThere-map ns key w u16 (i, is, h) = (i, is, moved h)
  ValueThere-map ns key w i16 (i, is, h) = (i, is, moved h)
  ValueThere-map ns key w u32 (i, is, h) = (i, is, moved h)
  ValueThere-map ns key w i32 (i, is, h) = (i, is, moved h)
  ValueThere-map ns key w u64 (i, is, h) = (i, is, moved h)
  ValueThere-map ns key w i64 (i, is, h) = (i, is, moved h)

  KeyThere-map :
      (b : Bool) (ns : ℕ) (row : Row) (key : Str)
      → KeyThere b place files ns row key
      → KeyThere b place' files ns row key
  KeyThere-map true ns row key (bs, p, h) = (bs, p, move bs h)
  KeyThere-map false ns row key (e, v, w, p, q, r, h) =
      (e, v, w, p, q, r, ValueThere-map ns key w (to_encoding (lower e)) h)

  pub RowThere-map :
      (ns : ℕ) (row : Row) → RowThere place files ns row → RowThere place' files ns row
  RowThere-map ns row (key, is, h) =
      (key, is, KeyThere-map (is_type "namespace" row.datatype) ns row key h)

  pub RowsThere-map :
      (ns : ℕ) (rows : List Row) → RowsThere place files ns rows → RowsThere place' files ns rows
  RowsThere-map ns [] h = tt
  RowsThere-map ns (row ∷ rows) h =
      (RowThere-map ns row h.0, RowsThere-map (next_namespace row ns) rows h.1)
