-- ===== src/Varlen.antt =====
-- The variable-length methods of `class Page` (nvs_partition_gen.py): `write_single_page_entry`,
-- `write_varlen_binary_data` and `write_varlen_data`. `self` is the current page throughout, and
-- the blob loop takes the new page for `self` each time that it makes one.
pub mod Headers
pub mod Safe
pub mod Steps
pub mod Data
pub mod Fuel
pub mod Strings
use pedge.Prelude.{
  ℕ, zero, suc, ◌+◌, ◌-◌, ◌*◌, ◌/◌, ◌≤◌, Bool, true, false, ◌&&◌, ◌||◌, not, List, [], ◌∷◌, Option,
  none, some, pos, ltb, leb, ◌==◌, length, if◌then◌else◌,
}
use pedge.Exceptions.{
  Result, ok, err, or_raise, guard, Exception, page_full_error, input_error, size_exceeds_max,
  assertion_error, key_error, out_of_fuel,
}
use pedge.Exceptions
use pedge.Python.Bytes.{Bytes, Str, slice, set_slice, set_item, erased}
use pedge.Python.Struct.{unsigned, pack_into}
use pedge.Python.Utf8.{encode}
use pedge.Cipher.{XtsAes}
use pedge.State.{
  Page, Nvs, bytearray, bytes, Value, text, binary, Encoding, string_encoding, binary_encoding,
  hex2bin, base64, max_blob_size, version1, version2, max_entries, single_entry_size, chunk_any,
}
use pedge.State.ItemType
use pedge.Page.{checksum}
use pedge.Page.Entry.{set_crc_header, set_key, write_entry_to_buf}
use pedge.Nvs.{create_new_page}
use Headers.{
  entries_for, value_length, slice_value, write_chunk, write_index, is_blob, varlen_header,
  check_varlen, write_single_page_entry,
}
use pedge.Nvs.Monad.{Action, pure, raise, raise_if, lift, cur_page, on_cur_page, ◌>>=◌, ◌>>◌}

-- "Get the size available in current page".
abbrev pub tailroom : Page → ℕ
tailroom self = (max_entries - self.entry_num - 1) * single_entry_size

abbrev pub chunk_size : ℕ → ℕ → ℕ
chunk_size room remaining_size = if ltb room remaining_size then room else remaining_size

-- The loop of `write_varlen_binary_data`, in stages. `again` is its next round, by the entry, the
-- chunks so far, the offset and the remaining size.
module _ (xts : XtsAes) (v : Value) (data_size : ℕ)
    (again : Bytes → ℕ → ℕ → ℕ → Action (Unit {0})) where
  -- The end of a round: the index after the last chunk, or the next round.
  unfoldable pub blob_next : Bytes → ℕ → ℕ → ℕ → Action (Unit {0})
  blob_next entry_struct chunk_count offset remaining = elim (remaining == 0) [
    | true ↦ on_cur_page (write_index xts entry_struct data_size chunk_count)
    | false ↦ again entry_struct chunk_count offset remaining
  ]

  -- After the chunk: a new page, if data remain or no entry fits this one.
  unfoldable pub blob_turn : ℕ → ℕ → ℕ → ℕ → ℕ → Bytes → Action (Unit {0})
  blob_turn chunk_count offset room size remaining entry_struct =
      (if not (remaining == 0) || ltb (room - size) single_entry_size
        then create_new_page false
        else pure tt)
      >> blob_next entry_struct (chunk_count + 1) (offset + size) remaining

  -- A round on its page: the chunk of the size that fits.
  unfoldable pub blob_round : Bytes → ℕ → ℕ → ℕ → Page → Action (Unit {0})
  blob_round entry_struct chunk_count offset remaining_size self =
      let size = chunk_size (tailroom self) remaining_size in
      raise_if (ltb max_entries (self.entry_num + 1)) assertion_error
      >> (on_cur_page
            (write_chunk xts entry_struct chunk_count (slice_value offset (offset + size) v) size)
          >>= blob_turn chunk_count offset (tailroom self) size (remaining_size - size))

module _ (xts : XtsAes) where
  -- The loop, by the rounds that are left; `cut_short` stands for what follows them.
  unfoldable pub blob_loop :
      Action (Unit {0}) → ℕ → Value → ℕ → Bytes → ℕ → ℕ → ℕ → Action (Unit {0})
  unfolding blob_next blob_turn blob_round
  blob_loop cut_short zero v data_size entry_struct chunk_count offset remaining_size = cut_short
  blob_loop cut_short (suc fuel) v data_size entry_struct chunk_count offset remaining_size =
      cur_page
      >>= blob_round xts v data_size (blob_loop cut_short fuel v data_size) entry_struct chunk_count
          offset remaining_size

  -- `Page.write_varlen_binary_data`, with a round for each byte and two more.
  unfoldable pub write_varlen_binary_data : Bytes → Value → ℕ → Action (Unit {0})
  unfolding blob_loop
  write_varlen_binary_data entry_struct v data_size =
      blob_loop (raise out_of_fuel) (data_size + 2) v data_size entry_struct 0 0 data_size

  -- The writer that `write_varlen_data` calls, on the entry that it has built.
  unfoldable pub write_by_kind : Value → Encoding → Page → Bytes → Action (Unit {0})
  unfolding write_varlen_binary_data
  write_by_kind v encoding self entry_struct =
      if self.version == version2 && is_blob encoding
      then write_varlen_binary_data entry_struct v (value_length v)
      else on_cur_page (
          write_single_page_entry xts entry_struct v (value_length v)
            (entries_for (value_length v)))

  -- `write_varlen_data` on its page: the tests, the entry, the writer.
  unfoldable pub write_varlen_on : Str → Value → Encoding → ℕ → Page → Action (Unit {0})
  unfolding write_by_kind
  write_varlen_on key v encoding ns_index self =
      lift (check_varlen self v encoding)
      >> (lift (varlen_header self.version key (entries_for (value_length v)) encoding ns_index)
          >>= write_by_kind v encoding self)

  -- `Page.write_varlen_data`.
  unfoldable pub write_varlen_data : Str → Value → Encoding → ℕ → Action (Unit {0})
  unfolding write_varlen_on
  write_varlen_data key v encoding ns_index = cur_page >>= write_varlen_on key v encoding ns_index
