-- ===== src/Csv/Config/Trip.antt =====
-- The configuration of a device, from its environment to the rows that `generate` takes.
use pedge.Prelude.{
  All, List, [], ◌∷◌, ◌++◌, Bool, true, false, ◌≡◌, ◌∙◌, refl, sym, ap, arith, some, map, ◌≢◌, ◌==◌,
  not, ◌&&◌, append-nil,
}
use mathlib.Core.Path.{subst}
use pedge.Exceptions.{ok, ok-injective}
use pedge.Python.Bytes.{Str}
use pedge.State.{codes}
use pedge.Generate.{Row}
use pedge.Csv.Lines.{NoComment}
use pedge.Csv.{cr, lf, write_csv, read_input, to_row, to_rows, dict_rows, dict_get}
use pedge.Csv.Trip.{IsRow}
use pedge.Csv.Whole.{IsField, AreFields, read_csv-write_csv}
use pedge.Csv.Config.{
  Environment, header, mqtt_of, start_namespace, add_string_data, namespace_rows, config_rows,
  settings_of, csv_gen,
}

-- The rows that a namespace and its strings are for `generate`.
abbrev pub namespace_row : Str → Row
namespace_row namespace = record {
  key = some namespace;
  datatype = some (codes "namespace");
  encoding = some [];
  value = some [];
}

abbrev pub string_row : Str × Str → Row
string_row (key, value) = record {
  key = some key;
  datatype = some (codes "data");
  encoding = some (codes "string");
  value = some value;
}

abbrev pub settings_rows : List (Str × Str) → List Row
settings_rows [] = []
settings_rows (entry ∷ settings) =
    namespace_row (codes "settings") ∷ map string_row (entry ∷ settings)

abbrev pub device_rows : Environment → List (Str × Str) → List Row
device_rows env settings =
    namespace_row (codes "mqtt") ∷ (map string_row (mqtt_of env) ++ settings_rows settings)

-- A key and a value that can stand in the file.
abbrev pub IsEntry : Str × Str → Type 0
IsEntry (key, value) = IsField true key × IsField false value

to_row-string :
    (entry : Str × Str) → to_row header (add_string_data entry) ≡ some (string_row entry)
unfolding to_row dict_get add_string_data
to_row-string entry = refl

to_row-namespace : (name : Str) → to_row header (start_namespace name) ≡ some (namespace_row name)
unfolding to_row dict_get start_namespace
to_row-namespace name = refl

to_rows-cons :
    (fields : List Str) (records : List (List Str)) (row : Row) (rows : List Row)
    → IsRow fields
    → to_row header fields ≡ some row
    → to_rows header records ≡ some rows
    → to_rows header (fields ∷ records) ≡ some (row ∷ rows)
unfolding to_rows
to_rows-cons [] records row rows h e k = absurd h
to_rows-cons (f ∷ fs) records row rows h e k = rw (e, k, to_rows) refl

string-IsRow : (entry : Str × Str) → IsRow (add_string_data entry)
unfolding add_string_data
string-IsRow entry = tt

namespace-IsRow : (name : Str) → IsRow (start_namespace name)
unfolding start_namespace
namespace-IsRow name = tt

to_rows-strings :
    (entries : List (Str × Str)) (records : List (List Str)) (rows : List Row)
    → to_rows header records ≡ some rows
    → to_rows header (map add_string_data entries ++ records)
      ≡ some (map string_row entries ++ rows)
to_rows-strings [] records rows h = h
to_rows-strings (entry ∷ entries) records rows h =
    to_rows-cons (add_string_data entry) (map add_string_data entries ++ records) (string_row entry)
      (map string_row entries ++ rows) (string-IsRow entry) (to_row-string entry)
      (to_rows-strings entries records rows h)

-- A text without carriage returns and without the sign of a comment.
abbrev pub is_simple : Str → Bool
is_simple [] = true
is_simple (c ∷ s) = not (c == cr) && (not (c == b'#') && is_simple s)

pub IsField-simple : (b : Bool) (s : Str) → is_simple s ≡ true → IsField b s
IsField-simple true [] h = (tt, tt)
IsField-simple false [] h = (tt, tt)
IsField-simple b (c ∷ s) h =
    let rest = IsField-simple (c == lf) s (ground arith) in
    let plain : c ≢ b'#' = λ e. ground (arith, e, h) in
    (((λ e. ground (arith, e, h)), rest.0), first b plain rest.1)
  where
    first : (b : Bool) → c ≢ b'#' → NoComment (c == lf) s → NoComment b (c ∷ s)
    first true plain rest = (plain, rest)
    first false plain rest = rest

string-AreFields : (entry : Str × Str) → IsEntry entry → AreFields (add_string_data entry)
unfolding add_string_data
string-AreFields (key, value) h = (
  h.0,
  (
    IsField-simple false (codes "data") refl,
    (IsField-simple false (codes "string") refl, (h.1, tt)),
  ),
)

namespace-AreFields : (name : Str) → is_simple name ≡ true → AreFields (start_namespace name)
unfolding start_namespace
namespace-AreFields name h = (
  IsField-simple true name h,
  (IsField-simple false (codes "namespace") refl, ((tt, tt), ((tt, tt), tt))),
)

-- The records of a namespace, and what `generate` takes from them.
abbrev Good : List (List Str) → List Row → Type 0
Good records rows = All IsRow records × All AreFields records × (to_rows header records ≡ some rows)

strings-Good :
    (entries : List (Str × Str)) (records : List (List Str)) (rows : List Row)
    → All IsEntry entries
    → Good records rows
    → Good (map add_string_data entries ++ records) (map string_row entries ++ rows)
strings-Good [] records rows h g = g
strings-Good (entry ∷ entries) records rows h (r, f, e) =
    let (r', f', e') = strings-Good entries records rows h.1 (r, f, e) in
    (
      (string-IsRow entry, r'),
      (string-AreFields entry h.0, f'),
      to_rows-strings (entry ∷ entries) records rows e,
    )

namespace-Good :
    (name : Str) (entries : List (Str × Str)) (records : List (List Str)) (rows : List Row)
    → is_simple name ≡ true
    → All IsEntry entries
    → Good records rows
    → Good
        (namespace_rows name entries ++ records)
        (namespace_row name ∷ (map string_row entries ++ rows))
unfolding namespace_rows
namespace-Good name entries records rows simple h g =
    let (r, f, e) = strings-Good entries records rows h g in
    (
      (namespace-IsRow name, r),
      (namespace-AreFields name simple, f),
      to_rows-cons (start_namespace name) (map add_string_data entries ++ records)
          (namespace_row name) (map string_row entries ++ rows) (namespace-IsRow name)
          (to_row-namespace name) e,
    )

empty-Good : Good [] []
unfolding to_rows
empty-Good = (tt, tt, refl)

header-Good :
    (records : List (List Str)) (rows : List Row)
    → Good records rows
    → read_input (write_csv (header ∷ records)) ≡ ok rows
unfolding read_input dict_rows
header-Good records rows (r, f, e) =
    let head : AreFields header = (
      IsField-simple true (codes "key") refl,
      (
        IsField-simple false (codes "type") refl,
        (
          IsField-simple false (codes "encoding") refl,
          (IsField-simple false (codes "value") refl, tt),
        ),
      ),
    ) in
    rw (read_csv-write_csv (header ∷ records) (tt, r) (head, f), e) refl

settings-Good :
    (entry : Str × Str) (settings : List (Str × Str))
    → All IsEntry (entry ∷ settings)
    → Good (namespace_rows (codes "settings") (entry ∷ settings)) (settings_rows (entry ∷ settings))
settings-Good entry settings h =
    let all = entry ∷ settings in
    let (r, f, e) = namespace-Good (codes "settings") all [] [] refl h empty-Good in
    let without = append-nil (namespace_rows (codes "settings") all) in
    let rows = append-nil (map string_row all) in
    subst (λ (records : List (List Str)). Good records (settings_rows all)) without
      (subst
        (λ (k : List Row).
          Good (namespace_rows (codes "settings") all ++ []) (namespace_row (codes "settings") ∷ k))
        rows (r, f, e))

-- The rows that `generate` takes from the file that `csv_gen` leaves are the namespace `mqtt` with its
-- five strings, then, if there are any settings, theirs, if no key or value has a carriage return or
-- begins a line of the file as a comment does.
pub read_input-csv_gen :
    (env : Environment) (settings : List (Str × Str)) {text : Str}
    → settings_of env ≡ ok settings
    → All IsEntry (mqtt_of env)
    → All IsEntry settings
    → csv_gen env ≡ ok text
    → read_input text ≡ ok (device_rows env settings)
unfolding csv_gen config_rows
read_input-csv_gen env settings {text} found mqtt h written =
    ap read_input (ok-injective (sym (rw found at written))) ∙ by_settings settings h
  where
    by_settings :
        (settings : List (Str × Str))
        → All IsEntry settings
        → read_input (write_csv (config_rows env settings)) ≡ ok (device_rows env settings)
    by_settings [] h =
        ap (λ (rows : List (List Str)). read_input (write_csv (header ∷ rows)))
          (sym (append-nil (namespace_rows (codes "mqtt") (mqtt_of env))))
        ∙ header-Good (namespace_rows (codes "mqtt") (mqtt_of env) ++ []) (device_rows env [])
            (namespace-Good (codes "mqtt") (mqtt_of env) [] [] refl mqtt empty-Good)
    by_settings (entry ∷ settings) h =
        let others = namespace_rows (codes "settings") (entry ∷ settings) in
        let rows = settings_rows (entry ∷ settings) in
        header-Good (namespace_rows (codes "mqtt") (mqtt_of env) ++ others)
          (device_rows env (entry ∷ settings))
          (namespace-Good (codes "mqtt") (mqtt_of env) others rows refl mqtt
            (settings-Good entry settings h))
