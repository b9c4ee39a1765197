-- ===== src/Tests/Blob.antt =====
-- A blob of three bytes on a new object.
use pedge.Prelude.{◌≡◌, refl, [], true}
use pedge.Exceptions.{Result, ok}
use pedge.State.{Nvs, binary, binary_encoding, codes, max_blob_size}
use pedge.Varlen.{write_varlen_data}
use pedge.Stored.Held.{Holds}
use pedge.Stored.Blob.{BlobThere}
use pedge.Stored.Blob.Whole.{write_varlen_data-BlobIn}
use pedge.Tests.{is_ok, blob, nvs, page, nvs-Sound, wifi-FitsKey, cipher, cipher-IsXtsAes}
use pedge.Python.Bytes.{set_item, erased, set_slice, zeros}
use pedge.Python.Utf8.{encode, encode_char}
use pedge.Python.Struct.{pack, pack_into}
use pedge.Python.Crc.{shift_bit, shift_bits, update_crc, crc32}
use pedge.Page.Init.{fresh_page, header_bytes, unsummed_header}
use pedge.Page.{checksum, create_bitmap_array, clear_bit, write_bitmaparray, mark_entries}
use pedge.Page.Entry.{set_crc_header, set_key, write_entry_to_buf}
use pedge.Varlen.{
  blob_next, blob_turn, blob_round, blob_loop, write_varlen_binary_data, write_by_kind,
  write_varlen_on,
}
use pedge.Varlen.Headers.{
  index_entry, write_index, write_chunk, chunk_header, set_type, varlen_header, set_span, to_bytes,
  write_both, set_sums, check_varlen,
}

abbrev written : Result (Unit {0}) × Nvs
written = write_varlen_data cipher (codes "wifi") (binary blob) binary_encoding 1 nvs

written_ok : is_ok written.0 ≡ true
unfolding write_varlen_data write_varlen_on write_by_kind write_varlen_binary_data blob_loop
    blob_round blob_turn blob_next check_varlen varlen_header set_span set_type set_sums to_bytes
    write_both write_chunk chunk_header write_index index_entry max_blob_size set_item erased
    set_slice zeros encode encode_char pack pack_into set_crc_header set_key write_entry_to_buf
    mark_entries write_bitmaparray clear_bit checksum crc32 update_crc shift_bits shift_bit
    fresh_page header_bytes unsummed_header create_bitmap_array
written_ok = refl

returned : (r : Result (Unit {0})) → is_ok r ≡ true → r ≡ ok tt
returned (ok tt) h = refl
returned _ h = cc

write_varlen_data-BlobIn_example : BlobThere (λ bs. Holds bs written.1.pages) 1 (codes "wifi") blob
unfolding fresh_page
write_varlen_data-BlobIn_example =
    write_varlen_data-BlobIn cipher (codes "wifi") (binary blob) binary_encoding 1 2 1 nvs page []
      cipher-IsXtsAes wifi-FitsKey tt nvs-Sound refl refl refl refl (returned written.0 written_ok)
