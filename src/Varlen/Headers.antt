-- ===== src/Varlen/Headers.antt =====
-- The entries that the variable-length methods build, and how each is written to a page.
use pedge.Prelude.{
  ℕ, ◌+◌, ◌*◌, ◌/◌, Bool, true, false, ◌&&◌, ◌||◌, not, ltb, pos, ◌==◌, length, if◌then◌else◌,
}
use pedge.Exceptions.{
  Result, ok, or_raise, guard, page_full_error, input_error, size_exceeds_max, key_error, ◌>>=◌,
  ◌>>◌,
}
use pedge.Python.Bytes.{Bytes, Str, slice, set_slice, set_item, erased}
use pedge.Python.Struct.{unsigned, pack_into}
use pedge.Python.Utf8.{encode}
use pedge.Cipher.{XtsAes}
use pedge.State.{
  Page, Nvs, bytearray, bytes, Value, text, binary, Encoding, string_encoding, binary_encoding,
  hex2bin, base64, version1, version2, chunk_any, max_entries, max_blob_size,
}
use pedge.State.ItemType
use pedge.Page.{checksum}
use pedge.Page.Entry.{set_crc_header, set_key, write_entry_to_buf}

-- `((n + 31) & ~31) // 32`, the entries that `n` bytes take.
abbrev pub entries_for : ℕ → ℕ
entries_for n = (n + 31) / 32 * 32 / 32

-- `len(data)`: characters of a text, bytes of a `bytes`.
abbrev pub value_length : Value → ℕ
value_length (text s) = length s
value_length (binary bs) = length bs

-- `data[start:end]`.
abbrev pub slice_value : ℕ → ℕ → Value → Value
slice_value start end (text s) = text (slice start end s)
slice_value start end (binary bs) = binary (slice start end bs)

-- `if type(data) != bytes: data = bytes(data, encoding='utf8')`.
unfoldable pub to_bytes : Value → Result Bytes
to_bytes (text s) = encode s
to_bytes (binary bs) = ok bs

-- Size and checksum of the data, and the checksum of the entry itself.
unfoldable pub set_sums : Bytes → ℕ → Bytes → Result Bytes
set_sums entry_struct size payload = do
  es ← pack_into (unsigned 2) entry_struct 24 (pos size)
  es ← pack_into (unsigned 4) es 28 (pos (checksum payload))
  set_crc_header es

-- The header of a data chunk of a blob.
unfoldable pub chunk_header : Bytes → ℕ → ℕ → Bytes → Result Bytes
unfolding set_sums
chunk_header entry_struct chunk_index chunk_size payload = do
  es ← set_item entry_struct 1 ItemType.blob_data
  es ← set_item es 2 (entries_for chunk_size + 1)
  es ← set_item es 3 chunk_index
  set_sums es chunk_size payload

-- The index entry of a blob; `chunk_start` is 0.
unfoldable pub index_entry : Bytes → ℕ → ℕ → Result Bytes
index_entry entry_struct data_size chunk_count = do
  es ← set_item (set_slice entry_struct 24 32 (erased 8)) 1 ItemType.blob_idx
  es ← set_item es 2 1
  es ← set_item es 3 chunk_any
  es ← pack_into (unsigned 4) es 24 (pos data_size)
  es ← set_item es 28 chunk_count
  es ← set_item es 29 0
  set_crc_header es

-- `encoding in ['hex2bin', 'binary', 'base64']`.
abbrev pub is_blob : Encoding → Bool
is_blob hex2bin = true
is_blob binary_encoding = true
is_blob base64 = true
is_blob _ = false

abbrev pub is_string : Encoding → Bool
is_string string_encoding = true
is_string _ = false

-- "Set Span" and the chunk index.
unfoldable pub set_span : ℕ → ℕ → Encoding → Bytes → Result Bytes
set_span version data_entry_count encoding entry_struct =
    if version == version2
    then ((if is_string encoding
          then set_item entry_struct 2 (data_entry_count + 1)
          else ok entry_struct)
        >>= λ es. set_item es 3 chunk_any)
    else set_item entry_struct 2 (data_entry_count + 1)

-- "set Type".
unfoldable pub set_type : Encoding → Bytes → Result Bytes
set_type encoding entry_struct =
    if is_string encoding
    then set_item entry_struct 1 ItemType.sz
    else if is_blob encoding
    then set_item entry_struct 1 ItemType.blob
    else ok entry_struct

-- The entry that `write_varlen_data` hands to the two writers: namespace, span, chunk index, key
-- and type.
unfoldable pub varlen_header : ℕ → Str → ℕ → Encoding → ℕ → Result Bytes
unfolding set_key
varlen_header version key data_entry_count encoding ns_index = do
  es ← set_item (erased 32) 0 ns_index
  es ← set_span version data_entry_count encoding es
  es ← set_key es key
  set_type encoding es

-- The tests of `write_varlen_data` that come before anything is written.
unfoldable pub check_varlen : Page → Value → Encoding → Result (Unit {0})
check_varlen self v encoding = do
  limit ← or_raise (max_blob_size self.version) key_error
  let datalen = value_length v
  let blob_limit_applies = self.version == version1 || is_string encoding
  guard (not (blob_limit_applies && ltb limit datalen)) (input_error size_exceeds_max)
  let total_entry_count = entries_for datalen + 1
  guard (ltb self.entry_num max_entries) page_full_error
  guard
      (ltb (self.entry_num + total_entry_count) max_entries
        || (self.version == version2 && is_blob encoding))
      page_full_error

module _ (xts : XtsAes) where
  -- A header of one entry, then the data that it describes.
  unfoldable pub write_both : Nvs → Page → Bytes → Bytes → ℕ → Result Page
  write_both nvs_obj self entry_struct payload entry_count = do
    self ← write_entry_to_buf xts nvs_obj self (bytearray entry_struct) 1
    write_entry_to_buf xts nvs_obj self (bytes payload) entry_count

  -- One round of the loop of `write_varlen_binary_data` on its page.
  unfoldable pub write_chunk : Bytes → ℕ → Value → ℕ → Nvs → Page → Result (Bytes × Page)
  write_chunk entry_struct chunk_index data_chunk chunk_size nvs_obj self = do
    payload ← to_bytes data_chunk
    es ← chunk_header entry_struct chunk_index chunk_size payload
    self ← write_both nvs_obj self es payload (entries_for chunk_size)
    ok (es, self)

  -- "All chunks are stored, now store the index".
  unfoldable pub write_index : Bytes → ℕ → ℕ → Nvs → Page → Result (Unit {0} × Page)
  write_index entry_struct data_size chunk_count nvs_obj self = do
    es ← index_entry entry_struct data_size chunk_count
    self ← write_entry_to_buf xts nvs_obj self (bytearray es) 1
    ok (tt, self)

  -- `Page.write_single_page_entry`.
  unfoldable pub write_single_page_entry :
      Bytes → Value → ℕ → ℕ → Nvs → Page → Result (Unit {0} × Page)
  write_single_page_entry entry_struct v datalen data_entry_count nvs_obj self = do
    payload ← to_bytes v
    es ← set_sums entry_struct datalen payload
    self ← write_both nvs_obj self es payload data_entry_count
    ok (tt, self)
