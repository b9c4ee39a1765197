-- ===== src/Csv/Config/Image.antt =====
-- The image of a device, from its environment through csv_gen.py and `generate`.
use pedge.Prelude.{
  All, All-append, ℕ, ◌^◌, ◌≤◌, ◌≡◌, refl, sym, ◌∙◌, arith, length, List, [], ◌∷◌, ◌++◌, Bool, true,
  Option, some, map, pos,
}
use mathlib.Core.Path.{subst}
use pedge.Exceptions.{Result, ok, ◌>>=◌, >>=-eq-ok, ok-injective}
use pedge.Python.Bytes.{Bytes, Str}
use pedge.Python.Utf8.{IsAscii}
use pedge.Python.Number.{int_base0}
use pedge.Cipher.{XtsAes, IsXtsAes}
use pedge.State.{Value, codes, to_encoding}
use pedge.Python.Utf8.{all_ascii}
use pedge.Entries.{Files, row_value}
use pedge.Entries.Safe.{FitsInput}
use pedge.Generate.{Row, generate}
use pedge.Generate.Rows.{FitsRow}
use pedge.Generate.Image.{generate-length}
use pedge.Generate.Accepted.{Accepted, generate-Accepted}
use pedge.Csv.{read_input}
use pedge.Csv.Config.{Environment, settings_of, mqtt_of, csv_gen}
use pedge.Csv.Config.Trip.{
  IsEntry, namespace_row, string_row, settings_rows, device_rows, read_input-csv_gen,
}

-- A key and a value that are ASCII.
abbrev pub IsAsciiEntry : Str × Str → Type 0
IsAsciiEntry (key, value) = IsAscii key × IsAscii value

abbrev pub IsShort : Str × Str → Type 0
IsShort (key, value) = length key ≤ 15

some_text : {s t : Str} → some s ≡ some t → s ≡ t
some_text e = cc

IsAscii-by : (s : Str) → all_ascii s ≡ true → IsAscii s
IsAscii-by [] h = tt
IsAscii-by (c ∷ s) h = (ground (arith, h), IsAscii-by s (ground (arith, h)))

module _ (files : Files) where
  string_row-FitsRow : (entry : Str × Str) → IsAsciiEntry entry → FitsRow files (string_row entry)
  unfolding row_value to_encoding
  string_row-FitsRow (key, value) h = record {
    fits_key = λ k e. subst IsAscii (some_text e) h.0;
    fits_value = λ e v f g.
        subst (λ (enc : Str). FitsInput (to_encoding enc) v) (some_text f)
          (subst (λ (w : Option Value). FitsInput (to_encoding (codes "string")) w) (ok-injective g)
            h.1);
  }

  namespace_row-FitsRow : (name : Str) → IsAscii name → FitsRow files (namespace_row name)
  unfolding row_value to_encoding
  namespace_row-FitsRow name h = record {
    fits_key = λ k e. subst IsAscii (some_text e) h;
    fits_value = λ e v f g.
        subst (λ (enc : Str). FitsInput (to_encoding enc) v) (some_text f)
          (subst (λ (w : Option Value). FitsInput (to_encoding []) w) (ok-injective g) tt);
  }

  strings-FitsRow :
      (entries : List (Str × Str))
      → All IsAsciiEntry entries
      → All (FitsRow files) (map string_row entries)
  strings-FitsRow [] h = tt
  strings-FitsRow (entry ∷ entries) h = (string_row-FitsRow entry h.0, strings-FitsRow entries h.1)

  settings-FitsRow :
      (settings : List (Str × Str))
      → All IsAsciiEntry settings
      → All (FitsRow files) (settings_rows settings)
  settings-FitsRow [] h = tt
  settings-FitsRow (entry ∷ settings) h = (
    namespace_row-FitsRow (codes "settings") (IsAscii-by (codes "settings") refl),
    strings-FitsRow (entry ∷ settings) h,
  )

  pub device_rows-FitsRow :
      (env : Environment) (settings : List (Str × Str))
      → All IsAsciiEntry (mqtt_of env)
      → All IsAsciiEntry settings
      → All (FitsRow files) (device_rows env settings)
  device_rows-FitsRow env settings m h = (
    namespace_row-FitsRow (codes "mqtt") (IsAscii-by (codes "mqtt") refl),
    All-append (FitsRow files) (map string_row (mqtt_of env)) (settings_rows settings)
        (strings-FitsRow (mqtt_of env) m) (settings-FitsRow settings h),
  )

strings-IsShort :
    (entries : List (Str × Str)) → All Accepted (map string_row entries) → All IsShort entries
strings-IsShort [] h = tt
strings-IsShort ((key, value) ∷ entries) h = (
  subst (λ (k : Str). length k ≤ 15) (sym (some_text h.0.has_key)) h.0.short,
  strings-IsShort entries h.1,
)

settings-IsShort :
    (settings : List (Str × Str)) → All Accepted (settings_rows settings) → All IsShort settings
settings-IsShort [] h = tt
settings-IsShort (entry ∷ settings) h = strings-IsShort (entry ∷ settings) h.1

All-after : (xs ys : List Row) → All Accepted (xs ++ ys) → All Accepted ys
All-after [] ys h = h
All-after (x ∷ xs) ys h = All-after xs ys h.1

-- What is made of the rows of the file that `csv_gen` leaves is made of the device's.
pub csv_gen-device_rows :
    {A : Type 0} (make : List Row → Result A) (env : Environment) (settings : List (Str × Str))
    {out : A}
    → settings_of env ≡ ok settings
    → All IsEntry (mqtt_of env)
    → All IsEntry settings
    → (csv_gen env >>= read_input >>= make) ≡ ok out
    → make (device_rows env settings) ≡ ok out
csv_gen-device_rows make env settings {out} found mqtt others h =
    let (rows, read, made) = >>=-eq-ok (csv_gen env >>= read_input) make h in
    let (contents, written, taken) = >>=-eq-ok (csv_gen env) read_input read in
    let same : rows ≡ device_rows env settings =
      ok-injective (sym taken ∙ read_input-csv_gen env settings found mqtt others written) in
    subst (λ (rs : List Row). make rs ≡ ok out) same made

-- An image that `generate` returns for the file that `csv_gen` leaves is as long as the size argument
-- says, and no setting in it has a name of more than 15 characters, for a size of at most 2 ^ 44 and
-- ASCII keys and values without a carriage return of which none begins a line of the file as a comment
-- does.
pub csv_gen-generate :
    (xts : XtsAes) (files : Files) (generate_key : Result Bytes) (size output : Str) (version : ℕ)
    (on : Bool) (key : Option Bytes) (env : Environment) (settings : List (Str × Str)) (bytes : ℕ)
    {image : Bytes}
    → IsXtsAes xts
    → settings_of env ≡ ok settings
    → All IsEntry (mqtt_of env)
    → All IsEntry settings
    → All IsAsciiEntry (mqtt_of env)
    → All IsAsciiEntry settings
    → int_base0 size ≡ some (pos bytes)
    → bytes ≤ 2 ^ 44
    → (csv_gen env >>= read_input >>= generate xts files generate_key size output version on key)
      ≡ ok image
    → (length image ≡ bytes) × All IsShort settings
csv_gen-generate xts files generate_key size output version on key env settings bytes {image} laws
      found mqtt others mqtt_ascii ascii parsed small h =
    let rows = device_rows env settings in
    let made =
      csv_gen-device_rows (generate xts files generate_key size output version on key) env settings
        found mqtt others h in
    (
      generate-length xts files generate_key size output version on key rows bytes laws
          (device_rows-FitsRow files env settings mqtt_ascii ascii) parsed small made,
      settings-IsShort settings (
          All-after (map string_row (mqtt_of env)) (settings_rows settings)
            (generate-Accepted xts files generate_key size output version on key rows made).1),
    )
