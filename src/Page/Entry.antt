-- ===== src/Page/Entry.antt =====
-- `Page.write_entry_to_buf`, `Page.set_crc_header` and `Page.write_primitive_data`.
use pedge.Prelude.{ℕ, ◌+◌, ◌*◌, [], ◌∷◌, ltb, ℤ, pos, length, if◌then◌else◌}
use pedge.Exceptions.{Result, ok, page_full_error, guard, ◌>>=◌, ◌>>◌}
use pedge.Python.Bytes.{Bytes, Str, slice, set_slice, set_item, erased, zeros}
use pedge.Python.Struct.{Format, unsigned, signed, pack_into}
use pedge.Python.Utf8.{encode}
use pedge.Cipher.{XtsAes}
use pedge.State.{
  Page, Nvs, Buffer, bytearray, contents, Encoding, u8, i8, u16, i16, u32, i32, u64, i64, chunk_any,
  max_entries, first_entry_offset, single_entry_size,
}
use pedge.State.ItemType
use pedge.Page.{checksum, mark_entries}
use pedge.Page.Crypt.{encrypt_data}

-- `Page.set_crc_header`; `b'28'` is a `bytearray` of two bytes that both assignments replace.
unfoldable pub set_crc_header : Bytes → Result Bytes
set_crc_header entry_struct =
    let crc_data = set_slice (b'2' ∷ b'8' ∷ []) 0 4 (slice 0 4 entry_struct) in
    let crc_data' = set_slice crc_data 4 28 (slice 8 32 entry_struct) in
    pack_into (unsigned 4) entry_struct 4 (pos (checksum crc_data'))

-- The key field: 16 zero bytes, then the encoded key over as many bytes as the key has characters.
unfoldable pub set_key : Bytes → Str → Result Bytes
set_key entry_struct key = do
  key_bytes ← encode key
  ok (set_slice (set_slice entry_struct 8 24 (zeros 16)) 8 (8 + length key) key_bytes)

-- One arm of the ladder of `write_primitive_data`: the type code, and the value in its format.
unfoldable pub store_value : Bytes → ℕ → Format → ℤ → Result Bytes
store_value entry_struct code format value = do
  typed ← set_item entry_struct 1 code
  pack_into format typed 24 value

-- The ladder on the encoding; another encoding than these stores nothing.
unfoldable pub set_primitive : Bytes → Encoding → ℤ → Result Bytes
unfolding store_value
set_primitive entry_struct u8 value = store_value entry_struct ItemType.u8 (unsigned 1) value
set_primitive entry_struct i8 value = store_value entry_struct ItemType.i8 (signed 1) value
set_primitive entry_struct u16 value = store_value entry_struct ItemType.u16 (unsigned 2) value
set_primitive entry_struct i16 value = store_value entry_struct ItemType.i16 (signed 2) value
set_primitive entry_struct u32 value = store_value entry_struct ItemType.u32 (unsigned 4) value
set_primitive entry_struct i32 value = store_value entry_struct ItemType.i32 (signed 4) value
set_primitive entry_struct u64 value = store_value entry_struct ItemType.u64 (unsigned 8) value
set_primitive entry_struct i64 value = store_value entry_struct ItemType.i64 (signed 8) value
set_primitive entry_struct _ value = ok entry_struct

-- The entry that `write_primitive_data` builds, checksum included.
unfoldable pub primitive_entry : Str → ℤ → Encoding → ℕ → Result Bytes
unfolding set_key set_primitive set_crc_header
primitive_entry key value encoding ns_index = do
  es ← set_item (erased 32) 0 ns_index
  es ← set_item es 2 0x01
  es ← set_item es 3 chunk_any
  es ← set_key es key
  es ← set_primitive es encoding value
  set_crc_header es

module _ (xts : XtsAes) (nvs_obj : Nvs) where
  -- `Page.write_entry_to_buf`.
  unfoldable pub write_entry_to_buf : Page → Buffer → ℕ → Result Page
  write_entry_to_buf self buffer entrycount = do
    out ←
        (if nvs_obj.encrypt
          then encrypt_data xts nvs_obj self.entry_num buffer entrycount
          else ok (contents buffer))
    let data_offset = first_entry_offset + single_entry_size * self.entry_num
    mark_entries entrycount (record self {
      page_buf = set_slice self.page_buf data_offset (data_offset + length out) out;
    })

  -- `Page.write_primitive_data`.
  unfoldable pub write_primitive_data : Page → Str → ℤ → Encoding → ℕ → Result Page
  write_primitive_data self key value encoding ns_index = do
    guard (ltb self.entry_num max_entries) page_full_error
    entry_struct ← primitive_entry key value encoding ns_index
    write_entry_to_buf self (bytearray entry_struct) 1
