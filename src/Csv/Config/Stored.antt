-- ===== src/Csv/Config/Stored.antt =====
-- The settings of a device in its image, from its environment to the bytes of the partition.
use pedge.Prelude.{
  All, ℕ, ◌+◌, ◌^◌, ◌≤◌, ◌≡◌, ◌∙◌, refl, sym, ap, List, [], ◌∷◌, ◌++◌, length, map, append-nil,
  false, Option, some, pos,
}
use mathlib.Core.Path.{subst}
use pedge.Exceptions.{Result, ok, ok-injective, ◌>>=◌}
use pedge.Python.Bytes.{Bytes, Str}
use pedge.Python.Number.{int_base0}
use pedge.Python.Struct.{unsigned, pack}
use pedge.Python.Utf8.{IsAscii, encode_ascii}
use pedge.Cipher.{XtsAes, IsXtsAes}
use pedge.State.{codes, Value, text, string_encoding, to_encoding}
use pedge.State.ItemType
use pedge.Varlen.Headers.{entries_for, to_bytes}
use pedge.Entries.{Files, convert, convert_value, lower, row_value}
use pedge.Entries.Safe.{IsAscii-zero}
use pedge.Generate.{Row, generate}
use pedge.Csv.{read_input}
use pedge.Csv.Config.{Environment, mqtt_of, settings_of, csv_gen}
use pedge.Csv.Config.Trip.{IsEntry, namespace_row, string_row, settings_rows, device_rows}
use pedge.Csv.Config.Image.{IsAsciiEntry, device_rows-FitsRow, csv_gen-device_rows}
use pedge.Stored.{string_layout, number_layout}
use pedge.Stored.Held.{InImage}
use pedge.Stored.Rows.{RowThere, RowsThere, ValueThere}
use pedge.Stored.Image.{generate-RowsThere}

-- A setting in a namespace: its value, with a zero after it, as a string.
abbrev pub SettingIn : Bytes → ℕ → Str × Str → Type 0
SettingIn image ns (key, value) =
    let payload = value ++ (0 ∷ []) in
    InImage (string_layout ns key (entries_for (length payload)) payload) image

-- A namespace with its index.
abbrev pub NamespaceIn : Bytes → Str → ℕ → Type 0
NamespaceIn image name index = InImage (number_layout 0 ItemType.u8 name (index ∷ [])) image

module _ (image : Bytes) (files : Files) where
  abbrev Place : Bytes → Type 0
  Place bs = InImage bs image

  string_value :
      (ns : ℕ) (key value : Str)
      → IsAscii value
      → ValueThere Place ns key (some (text (value ++ (0 ∷ [])))) string_encoding
      → SettingIn image ns (key, value)
  unfolding to_bytes
  string_value ns key value ascii (v, is, (bs, (payload, coded, layout), h)) =
      let given : text (value ++ (0 ∷ [])) ≡ v = cc in
      let bytes : value ++ (0 ∷ []) ≡ payload = ok-injective (
        sym (encode_ascii (value ++ (0 ∷ [])) (IsAscii-zero value ascii))
        ∙ ap to_bytes given
        ∙ coded) in
      subst (λ (p : Bytes). InImage (string_layout ns key (entries_for (length p)) p) image)
        (sym bytes) (subst (λ (b : Bytes). InImage b image) layout h)

  string_row-SettingIn :
      (ns : ℕ) (entry : Str × Str)
      → IsAsciiEntry entry
      → RowThere Place files ns (string_row entry)
      → SettingIn image ns entry
  unfolding row_value to_encoding convert convert_value lower
  string_row-SettingIn ns (key, value) ascii (k, is_key, (e, v, w, is_e, read, converted, there)) =
      let encoding : codes "string" ≡ e = cc in
      let same_key : key ≡ k = cc in
      let given : some (text value) ≡ v = ok-injective read in
      let stored : some (text (value ++ (0 ∷ []))) ≡ w = ok-injective (
        ap (λ (enc : Str). convert (to_encoding enc) (some (text value))) encoding
        ∙ ap (convert (to_encoding e)) given
        ∙ converted) in
      let of_key =
        subst (λ (name : Str). ValueThere Place ns name w (to_encoding (lower e))) (sym same_key)
          there in
      let of_encoding =
        subst (λ (enc : Str). ValueThere Place ns key w (to_encoding (lower enc))) (sym encoding)
          of_key in
      string_value ns key value ascii.1 (
        subst (λ (o : Option Value). ValueThere Place ns key o string_encoding) (sym stored)
          of_encoding)

  -- The strings of a namespace, and the rows after them.
  strings-SettingIn :
      (ns : ℕ) (entries : List (Str × Str)) (rest : List Row)
      → All IsAsciiEntry entries
      → RowsThere Place files ns (map string_row entries ++ rest)
      → All (SettingIn image ns) entries × RowsThere Place files ns rest
  strings-SettingIn ns [] rest ascii h = (tt, h)
  strings-SettingIn ns (entry ∷ entries) rest ascii h =
      let (others, after) = strings-SettingIn ns entries rest ascii.1 h.1 in
      ((string_row-SettingIn ns entry ascii.0 h.0, others), after)

  namespace_row-NamespaceIn :
      (ns : ℕ) (name : Str)
      → pack (unsigned 1) (pos (ns + 1)) ≡ ok ((ns + 1) ∷ [])
      → RowThere Place files ns (namespace_row name)
      → NamespaceIn image name (ns + 1)
  namespace_row-NamespaceIn ns name fits (key, is_key, (bs, (packed, p, layout), h)) =
      let same_key : name ≡ key = cc in
      let index : packed ≡ (ns + 1) ∷ [] = ok-injective (sym p ∙ fits) in
      subst (λ (k : Str). NamespaceIn image k (ns + 1)) (sym same_key)
        (subst (λ (i : Bytes). InImage (number_layout 0 ItemType.u8 key i) image) index
          (subst (λ (b : Bytes). InImage b image) layout h))

-- The settings' namespace, if there are any.
abbrev pub SettingsIn : Bytes → List (Str × Str) → Type 0
SettingsIn image [] = Unit
SettingsIn image (entry ∷ settings) =
    NamespaceIn image (codes "settings") 2 × All (SettingIn image 2) (entry ∷ settings)

-- All that a device is given, in its image.
pub record DeviceIn (image : Bytes) (env : Environment) (settings : List (Str × Str)) : Type 0 where
  pub mqtt : NamespaceIn image (codes "mqtt") 1
  pub broker : All (SettingIn image 1) (mqtt_of env)
  pub others : SettingsIn image settings

settings_rows-SettingsIn :
    (image : Bytes) (files : Files) (settings : List (Str × Str))
    → All IsAsciiEntry settings
    → RowsThere (Place image files) files 1 (settings_rows settings)
    → SettingsIn image settings
unfolding pack
settings_rows-SettingsIn image files [] ascii h = tt
settings_rows-SettingsIn image files (entry ∷ settings) ascii h = (
  namespace_row-NamespaceIn image files 1 (codes "settings") refl h.0,
  (strings-SettingIn image files 2 (entry ∷ settings) [] ascii (
      subst (RowsThere (Place image files) files 2)
        (sym (append-nil (map string_row (entry ∷ settings)))) h.1)).0,
)

device_rows-DeviceIn :
    (image : Bytes) (files : Files) (env : Environment) (settings : List (Str × Str))
    → All IsAsciiEntry (mqtt_of env)
    → All IsAsciiEntry settings
    → RowsThere (Place image files) files 0 (device_rows env settings)
    → DeviceIn image env settings
unfolding pack
device_rows-DeviceIn image files env settings mqtt_ascii ascii h =
    let (broker, after) =
      strings-SettingIn image files 1 (mqtt_of env) (settings_rows settings) mqtt_ascii h.1 in
    record {
      mqtt = namespace_row-NamespaceIn image files 0 (codes "mqtt") refl h.0;
      broker = broker;
      others = settings_rows-SettingsIn image files settings ascii after;
    }

-- An image that `generate` returns in the clear for the file that `csv_gen` leaves holds the namespace
-- mqtt with its five strings and, if there are any settings, theirs with each of them: entries with the
-- layout of the format and their checksums, for a size of at most 2 ^ 44 and ASCII keys and values
-- without a carriage return of which none begins a line of the file as a comment does.
pub csv_gen-DeviceIn :
    (xts : XtsAes) (files : Files) (generate_key : Result Bytes) (size output : Str) (version : ℕ)
    (key : Option Bytes) (env : Environment) (settings : List (Str × Str)) (bytes : ℕ)
    {image : Bytes}
    → IsXtsAes xts
    → settings_of env ≡ ok settings
    → All IsEntry (mqtt_of env)
    → All IsEntry settings
    → All IsAsciiEntry (mqtt_of env)
    → All IsAsciiEntry settings
    → int_base0 size ≡ some (pos bytes)
    → bytes ≤ 2 ^ 44
    → (csv_gen env >>= read_input >>= generate xts files generate_key size output version false key)
      ≡ ok image
    → DeviceIn image env settings
csv_gen-DeviceIn xts files generate_key size output version key env settings bytes {image} laws
      found mqtt others mqtt_ascii ascii parsed small h =
    let rows = device_rows env settings in
    let made =
      csv_gen-device_rows (generate xts files generate_key size output version false key) env
        settings found mqtt others h in
    device_rows-DeviceIn image files env settings mqtt_ascii ascii (
      generate-RowsThere xts files generate_key size output version key rows bytes laws
        (device_rows-FitsRow files env settings mqtt_ascii ascii) parsed small made)
