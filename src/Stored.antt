-- ===== src/Stored.antt =====
-- What the entries of services/esp32-config-builder/nvs_partition_gen.py look like in the image, after
-- the layout of the NVS format: a description that does not follow the code's stores.
pub mod Layout
pub mod Held
pub mod Steps
pub mod Entries
pub mod Blob
pub mod Rows
pub mod Values
pub mod Partition
pub mod Image
use pedge.Prelude.{ℕ, ◌+◌, ◌-◌, [], ◌∷◌, ◌++◌, length, Option, none, some}
use pedge.Python.Bytes.{Bytes, Str, erased, zeros}
use pedge.Python.Struct.{Format, unsigned, signed, le_bytes, width}
use pedge.State.{Encoding, u8, i8, u16, i16, u32, i32, u64, i64}
use pedge.State.ItemType
use pedge.Page.{checksum}

-- Namespace, type, span and chunk index; the checksum of all the rest; the key in 16 bytes, filled
-- with zeros; eight bytes that depend on the type.
abbrev pub entry_front : ℕ → ℕ → ℕ → ℕ → Bytes
entry_front ns code span chunk = ns ∷ code ∷ span ∷ chunk ∷ []

abbrev pub entry_back : Str → Bytes → Bytes
entry_back key field = key ++ (zeros (16 - length key) ++ field)

unfoldable pub entry_layout : ℕ → ℕ → ℕ → ℕ → Str → Bytes → Bytes
entry_layout ns code span chunk key field =
    let front = entry_front ns code span chunk in
    let back = entry_back key field in front ++ (le_bytes 4 (checksum (front ++ back)) ++ back)

-- The type code and the format of a number.
abbrev pub number_format : Encoding → Option (ℕ × Format)
number_format u8 = some (ItemType.u8, unsigned 1)
number_format i8 = some (ItemType.i8, signed 1)
number_format u16 = some (ItemType.u16, unsigned 2)
number_format i16 = some (ItemType.i16, signed 2)
number_format u32 = some (ItemType.u32, unsigned 4)
number_format i32 = some (ItemType.i32, signed 4)
number_format u64 = some (ItemType.u64, unsigned 8)
number_format i64 = some (ItemType.i64, signed 8)
number_format _ = none

-- The entry of a number, from its bytes: what they leave of the eight is erased.
unfoldable pub number_layout : ℕ → ℕ → Str → Bytes → Bytes
unfolding entry_layout
number_layout ns code key packed =
    entry_layout ns code 1 0xFF key (packed ++ erased (8 - length packed))

-- The eight bytes of an entry with data after it: the size of the data and their checksum.
abbrev pub data_field : ℕ → Bytes → Bytes
data_field size payload = le_bytes 2 size ++ (0xFF ∷ 0xFF ∷ le_bytes 4 (checksum payload))

-- The entry of a string and its data.
unfoldable pub string_layout : ℕ → Str → ℕ → Bytes → Bytes
unfolding entry_layout
string_layout ns key entry_count payload =
    entry_layout ns ItemType.sz (entry_count + 1) 0xFF key (data_field (length payload) payload)
    ++ payload

-- The entry of a chunk of a blob and its data, with the number of the chunk.
unfoldable pub chunk_layout : ℕ → Str → ℕ → ℕ → Bytes → Bytes
unfolding entry_layout
chunk_layout ns key index entry_count payload =
    entry_layout ns ItemType.blob_data (entry_count + 1) index key
      (data_field (length payload) payload)
    ++ payload

-- The index of a blob: its size, the number of its chunks, and the number of the first.
unfoldable pub index_layout : ℕ → Str → ℕ → ℕ → Bytes
unfolding entry_layout
index_layout ns key size chunk_count =
    entry_layout ns ItemType.blob_idx 1 0xFF key
      (le_bytes 4 size ++ (chunk_count ∷ 0 ∷ 0xFF ∷ 0xFF ∷ []))
