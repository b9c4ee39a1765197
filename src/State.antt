-- ===== src/State.antt =====
-- The objects of services/esp32-config-builder/nvs_partition_gen.py: a `Page`, the `NVS` that
-- holds the pages, the constants of the format, and the values that the methods pass around.
pub mod ItemType
use pedge.Prelude.{
  ℕ, Bool, true, false, ◌&&◌, List, [], ◌∷◌, Option, none, some, ℤ, ◌==◌, if◌then◌else◌,
}
use Prim.Native.Char.{code}
use Prim.Native.String.{String}
use pedge.Python.Bytes.{Bytes, Str}

-- A page in the making; `page_buf` is its image in flash.
pub record Page : Type 0 where
  pub entry_num : ℕ
  pub bitmap_array : Bytes
  pub version : ℕ
  pub page_buf : Bytes

-- `pages` holds the newest page first: its head is the object that `cur_page` names too, and the
-- `self` of the methods of `Page`. `size` is None once the object is closed.
pub record Nvs : Type 0 where
  pub size : Option ℤ
  pub encrypt : Bool
  pub encr_key : Option Bytes
  pub namespace_idx : ℕ
  pub page_num : ℤ
  pub pages : List Page
  pub version : ℕ

-- The page constants of `class Page`; the item type codes are in `State.ItemType`.
abbrev pub bitmaparray_offset : ℕ
bitmaparray_offset = 32

abbrev pub bitmaparray_size : ℕ
bitmaparray_size = 32

abbrev pub first_entry_offset : ℕ
first_entry_offset = 64

abbrev pub single_entry_size : ℕ
single_entry_size = 32

abbrev pub chunk_any : ℕ
chunk_any = 0xFF

abbrev pub active : ℕ
active = 0xFFFFFFFE

abbrev pub full : ℕ
full = 0xFFFFFFFC

abbrev pub version1 : ℕ
version1 = 0xFF

abbrev pub version2 : ℕ
version2 = 0xFE

abbrev pub max_size : ℕ
max_size = 4096

abbrev pub max_entries : ℕ
max_entries = 126

-- `PAGE_PARAMS['max_blob_size'][version]`; another key raises KeyError.
unfoldable pub max_blob_size : ℕ → Option ℕ
max_blob_size v = if v == version1 then some 1984 else if v == version2 then some 4000 else none

-- A bytes-like object: only a `bytes` is padded before encryption.
pub data Buffer : Type 0 where
  bytearray : Bytes → Buffer
  bytes : Bytes → Buffer

abbrev pub contents : Buffer → Bytes
contents (bytearray bs) = bs
contents (bytes bs) = bs

-- The value of an entry: a `str` or a `bytes`.
pub data Value : Type 0 where
  text : Str → Value
  binary : Bytes → Value

-- The encodings that the code tests for, after `encoding.lower()`.
pub data Encoding : Type 0 where
  u8 i8 u16 i16 u32 i32 u64 i64 string_encoding binary_encoding hex2bin base64 : Encoding
  unsupported : Encoding

abbrev pub codes : String → Str
codes String.[] = []
codes (String.◌∷◌ c s) = code c ∷ codes s

abbrev pub str_eq : Str → Str → Bool
str_eq [] [] = true
str_eq [] (d ∷ t) = false
str_eq (c ∷ s) [] = false
str_eq (c ∷ s) (d ∷ t) = c == d && str_eq s t

-- The encoding that a text spells, letter for letter.
unfoldable pub to_encoding : Str → Encoding
to_encoding s =
    if str_eq s (codes "string")
    then string_encoding
    else if str_eq s (codes "hex2bin")
    then hex2bin
    else if str_eq s (codes "base64")
    then base64
    else if str_eq s (codes "binary")
    then binary_encoding
    else if str_eq s (codes "u8")
    then u8
    else if str_eq s (codes "i8")
    then i8
    else if str_eq s (codes "u16")
    then u16
    else if str_eq s (codes "i16")
    then i16
    else if str_eq s (codes "u32")
    then u32
    else if str_eq s (codes "i32")
    then i32
    else if str_eq s (codes "u64")
    then u64
    else if str_eq s (codes "i64")
    then i64
    else unsupported
