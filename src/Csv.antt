-- ===== src/Csv.antt =====
-- The CSV file between services/esp32-config-builder/csv_gen.py, which writes it, and `generate` of
-- nvs_partition_gen.py, which reads it: the writer and the reader of Python's `csv` with their
-- defaults, text mode, and the filter of comments.
pub mod Lines
pub mod Fields
pub mod Trip
pub mod Whole
pub mod Config
use pedge.Prelude.{
  List, [], ◌∷◌, ◌++◌, ℕ, Bool, true, false, ◌&&◌, ◌||◌, not, Option, none, some, ◌==◌,
  if◌then◌else◌,
}
use pedge.Exceptions.{Result, ok, err, or_raise, csv_error, key_error, ◌>>=◌}
use pedge.Python.Bytes.{Str}
use pedge.State.{codes, str_eq}
use pedge.Generate.{Row}

abbrev pub cr : ℕ
cr = b'\r'

abbrev pub lf : ℕ
lf = b'\n'

-- `QUOTE_MINIMAL`: the characters that make the writer quote a field.
abbrev pub is_special : ℕ → Bool
is_special c = c == b',' || (c == b'"' || (c == cr || c == lf))

abbrev pub needs_quotes : Str → Bool
needs_quotes [] = false
needs_quotes (c ∷ s) = is_special c || needs_quotes s

abbrev pub doubled : Str → Str
doubled [] = []
doubled (c ∷ s) = if c == b'"' then b'"' ∷ b'"' ∷ doubled s else c ∷ doubled s

unfoldable pub write_field : Str → Str
write_field s = if needs_quotes s then b'"' ∷ (doubled s ++ (b'"' ∷ [])) else s

-- `writer.writerow` for a row of several fields.
unfoldable pub write_fields : List Str → Str
unfolding write_field
write_fields [] = cr ∷ lf ∷ []
write_fields (f ∷ []) = write_field f ++ (cr ∷ lf ∷ [])
write_fields (f ∷ g ∷ fs) = write_field f ++ (b',' ∷ write_fields (g ∷ fs))

unfoldable pub write_csv : List (List Str) → Str
unfolding write_fields
write_csv [] = []
write_csv (row ∷ rows) = write_fields row ++ write_csv rows

-- Universal newlines of `open(path, 'rt')`.
unfoldable pub universal_newlines : Str → Str
universal_newlines [] = []
universal_newlines (c ∷ []) = (if c == cr then lf else c) ∷ []
universal_newlines (c ∷ d ∷ s) =
    let rest = universal_newlines (d ∷ s) in
    if c == cr then (if d == lf then rest else lf ∷ rest) else c ∷ rest

-- The lines of a text, each with its line feed.
abbrev pub cons_line : ℕ → List Str → List Str
cons_line c [] = (c ∷ []) ∷ []
cons_line c (line ∷ rest) = (c ∷ line) ∷ rest

unfoldable pub lines : Str → List Str
lines [] = []
lines (c ∷ s) = if c == lf then (c ∷ []) ∷ lines s else cons_line c (lines s)

-- `filter(lambda row: row[0] != '#', input_file)`.
abbrev pub is_comment : Str → Bool
is_comment [] = false
is_comment (c ∷ s) = c == b'#'

unfoldable pub without_comments : List Str → List Str
without_comments [] = []
without_comments (line ∷ rest) =
    let kept = without_comments rest in if is_comment line then kept else line ∷ kept

-- The states of `csv.reader` without an escape character, and without its limit of 131072 characters
-- for a field.
pub data State : Type 0 where
  start_record start_field in_field in_quoted_field quote_in_quoted_field eat_crnl : State

-- The reader within a record: the fields that are complete, and the one that it is at.
pub record Reader : Type 0 where
  pub state : State
  pub fields : List Str
  pub field : Str

abbrev pub start : Reader
start = record { state = start_record; fields = []; field = [] }

abbrev pub is_newline : ℕ → Bool
is_newline c = c == cr || c == lf

abbrev pub add_char : ℕ → State → Reader → Reader
add_char c state r = record r { state = state; field = r.field ++ (c ∷ []) }

abbrev pub save_field : State → Reader → Reader
save_field state r = record { state = state; fields = r.fields ++ (r.field ∷ []); field = [] }

unfoldable pub begin_field : ℕ → Reader → Reader
begin_field c r =
    if is_newline c
    then save_field eat_crnl r
    else if c == b'"'
    then record r { state = in_quoted_field }
    else if c == b','
    then save_field start_field r
    else add_char c in_field r

unfoldable pub go_on : ℕ → Reader → Reader
go_on c r =
    if is_newline c
    then save_field eat_crnl r
    else if c == b','
    then save_field start_field r
    else add_char c in_field r

-- `parse_process_char`.
unfoldable pub process_char : ℕ → Reader → Result Reader
unfolding begin_field go_on
process_char c r = elim r.state [
  | start_record ↦ ok (if is_newline c then record r { state = eat_crnl } else begin_field c r)
  | start_field ↦ ok (begin_field c r)
  | in_field ↦ ok (go_on c r)
  | in_quoted_field ↦ ok (
      if c == b'"'
      then record r { state = quote_in_quoted_field }
      else add_char c in_quoted_field r)
  | quote_in_quoted_field ↦ ok (if c == b'"' then add_char c in_quoted_field r else go_on c r)
  | eat_crnl ↦ if is_newline c then ok r else err csv_error
]

-- The same at the end of a line.
unfoldable pub process_eol : Reader → Reader
process_eol r = elim r.state [
  | start_record ↦ r
  | in_quoted_field ↦ r
  | eat_crnl ↦ record r { state = start_record }
  | _ ↦ save_field start_record r
]

unfoldable pub feed_line : Str → Reader → Result Reader
unfolding process_char process_eol
feed_line [] r = ok (process_eol r)
feed_line (c ∷ line) r = do r' ← process_char c r; feed_line line r'

abbrev pub is_done : State → Bool
is_done start_record = true
is_done _ = false

-- The record that a file ends in the midst of.
unfoldable pub last_record : Reader → List (List Str)
last_record r =
    let unfinished = (r.fields ++ (r.field ∷ [])) ∷ [] in
    elim r.state [
      | in_quoted_field ↦ unfinished
      | _ ↦ elim r.field [ [] ↦ [] | c ∷ s ↦ unfinished ]
    ]

-- `csv.reader`: the records of the lines.
unfoldable pub read_records : List Str → Reader → Result (List (List Str))
unfolding feed_line last_record
read_records [] r = ok (last_record r)
read_records (line ∷ rest) r = do
  r' ← feed_line line r
  (elim (is_done r'.state) [
    | true ↦ read_records rest start >>= λ records. ok (r'.fields ∷ records)
    | false ↦ read_records rest r'
  ])

-- The records of an input file.
unfoldable pub read_csv : Str → Result (List (List Str))
unfolding universal_newlines lines without_comments read_records
read_csv text = read_records (without_comments (lines (universal_newlines text))) start

-- `csv.DictReader`: the value of a column, by the header and the record. A column that the header
-- lacks has none, one that the record lacks has None, and the last of two columns of a name counts.
abbrev pub first_field : List Str → Option Str
first_field [] = none
first_field (f ∷ fs) = some f

abbrev pub other_fields : List Str → List Str
other_fields [] = []
other_fields (f ∷ fs) = fs

unfoldable pub dict_get : Str → List Str → List Str → Option (Option Str)
dict_get name [] fields = none
dict_get name (column ∷ header) fields = elim (dict_get name header (other_fields fields)) [
  | some value ↦ some value
  | none ↦ if str_eq column name then some (first_field fields) else none
]

-- The row that `generate` takes from a record; `none` if the header lacks a column that it looks up.
unfoldable pub to_row : List Str → List Str → Option Row
unfolding dict_get
to_row header fields = elim (dict_get (codes "key") header fields) [
  | none ↦ none
  | some key ↦ elim (dict_get (codes "type") header fields) [
    | none ↦ none
    | some datatype ↦ elim (dict_get (codes "encoding") header fields) [
      | none ↦ none
      | some encoding ↦ elim (dict_get (codes "value") header fields) [
        | none ↦ none
        | some value ↦
            some (record { key = key; datatype = datatype; encoding = encoding; value = value })
      ]
    ]
  ]
]

-- The rows after the header; empty records are passed over.
unfoldable pub to_rows : List Str → List (List Str) → Option (List Row)
to_rows header [] = some []
to_rows header ([] ∷ records) = to_rows header records
to_rows header ((f ∷ fs) ∷ records) = elim (to_row header (f ∷ fs)) [
  | none ↦ none
  | some row ↦ elim (to_rows header records) [ none ↦ none | some rows ↦ some (row ∷ rows) ]
]

unfoldable pub dict_rows : List (List Str) → Option (List Row)
unfolding to_rows
dict_rows [] = some []
dict_rows (header ∷ records) = to_rows header records

-- The rows of an input file, for `generate`; a column that the header lacks is a KeyError at the
-- first row, which the model raises at once.
unfoldable pub read_input : Str → Result (List Row)
unfolding read_csv dict_rows
read_input text = do records ← read_csv text; or_raise (dict_rows records) key_error
