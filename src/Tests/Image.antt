-- ===== src/Tests/Image.antt =====
-- The image of a device, from its environment on.
use pedge.Prelude.{All, ◌≡◌, refl, arith, length, [], true, false, none}
use pedge.Exceptions.{Result}
use pedge.Python.Bytes.{Bytes, Str}
use pedge.State.{codes}
use pedge.Page.{
  checksum, set_version, page_header, set_header, create_bitmap_array, init, clear_bit,
  write_bitmaparray, mark_entries, mark_full, mark_previous_full,
}
use pedge.Generate.{
  mod_ℤ, ltb_ℤ, check_number, check_size, exit_if_input_error, exit_on_input_error, write_row,
  write_rows, page_version, is_bin_path, write_partition, generate,
}
use pedge.State.{to_encoding}
use pedge.Entries.{
  lower, strip_value, convert_value, convert, int_value, retry, or_on_new_page, write_primitive,
  write_namespace, write_supported, write_converted, write_entry, row_value, write_row_entry,
}
use pedge.Nvs.{
  no_space, take_page, create_new_page, new_nvs, nvs_open, join_pages, get_binary_data, fill_next,
  fill_pages, close_rounds, nvs_close,
}
use pedge.Python.Crc.{shift_bit, shift_bits, update_crc, crc32}
use pedge.Python.Path.{
  ends_with_slash, is_empty, split_last, split_dir, all_dots, splitext, has_prefix, contains,
}
use pedge.Python.Struct.{pack, pack_into, unpack}
use pedge.Python.Utf8.{encode_char, encode}
use pedge.Python.Number.{
  int_bytes, number_space, is_space, is_ascii_space, drop_while, strip, read_char, read_digits,
  signed_by, int, read_prefixed, is_letter, read_literal, int_base0,
}
use pedge.Python.Bytes.{set_slice, set_item, erased, zeros}
use pedge.Page.Entry.{
  set_crc_header, set_key, store_value, set_primitive, primitive_entry, write_entry_to_buf,
  write_primitive_data,
}
use pedge.Varlen.{write_varlen_data, write_varlen_binary_data, blob_loop}
use pedge.Varlen.Headers.{check_varlen}
use pedge.State.{max_blob_size}
use pedge.Python.Utf8.{all_ascii}
use pedge.Generate.{encryption_key}
use pedge.Exceptions.{◌>>=◌}
use pedge.Tests.{is_ok, value_of, ok_of, cipher, cipher-IsXtsAes, files, no_key, IsAscii-of}
use pedge.Tests.Devices.{env, settings, settings-found, mqtt-IsEntry, settings-IsEntry}
use pedge.Csv.{
  read_input, read_csv, universal_newlines, lines, without_comments, read_records, feed_line,
  process_char, process_eol, begin_field, go_on, last_record, dict_rows, to_rows, to_row, dict_get,
  write_csv, write_fields, write_field,
}
use pedge.Csv.Config.{
  csv_gen, mqtt_of, settings_of, read_settings, config_rows, namespace_rows, start_namespace,
  add_string_data,
}
use pedge.Csv.Config.Stored.{DeviceIn, csv_gen-DeviceIn}
use pedge.Csv.Config.Image.{IsShort, IsAsciiEntry, csv_gen-generate}
use pedge.Varlen.{
  blob_next, blob_turn, blob_round, blob_loop, write_varlen_binary_data, write_by_kind,
  write_varlen_on, write_varlen_data,
}
use pedge.Varlen.Headers.{
  index_entry, write_index, write_chunk, chunk_header, set_type, varlen_header, set_span, to_bytes,
  write_both, set_sums, write_single_page_entry, check_varlen,
}

-- An image for the device, of three pages.
abbrev image : Result Bytes
image =
    (csv_gen env >>= read_input)
    >>= generate cipher files no_key (codes "0x3000") (codes "nvs.bin") 2 false none

image_ok : is_ok image ≡ true
unfolding csv_gen settings_of read_settings config_rows namespace_rows start_namespace
    add_string_data read_input read_csv universal_newlines lines without_comments read_records
    feed_line process_char process_eol begin_field go_on last_record dict_rows to_rows to_row
    dict_get write_csv write_fields write_field check_number check_size contains crc32 checksum
    clear_bit close_rounds create_bitmap_array create_new_page convert convert_value encode
    encode_char erased exit_if_input_error exit_on_input_error fill_next fill_pages generate
    get_binary_data init int int_bytes number_space int_base0 int_value is_ascii_space is_bin_path
    is_space join_pages lower mark_entries mark_full mark_previous_full mod_ℤ new_nvs no_space
    nvs_close nvs_open or_on_new_page pack pack_into page_header page_version primitive_entry retry
    row_value set_crc_header set_header set_item set_key set_primitive set_slice set_version
    split_dir splitext store_value strip strip_value take_page to_encoding unpack write_bitmaparray
    write_converted write_entry write_entry_to_buf write_namespace write_partition write_primitive
    write_primitive_data write_row write_row_entry write_rows write_supported zeros ends_with_slash
    is_empty split_last all_dots has_prefix drop_while read_char read_digits signed_by read_prefixed
    is_letter read_literal shift_bit shift_bits update_crc ltb_ℤ encryption_key blob_next blob_turn
    blob_round blob_loop write_varlen_binary_data write_by_kind write_varlen_on write_varlen_data
    to_bytes set_sums chunk_header index_entry set_span set_type varlen_header check_varlen
    write_both write_chunk write_index write_single_page_entry max_blob_size
image_ok = refl

ascii_entry : (k v : Str) → all_ascii k ≡ true → all_ascii v ≡ true → IsAsciiEntry (k, v)
ascii_entry k v h g = (IsAscii-of k h, IsAscii-of v g)

mqtt-IsAsciiEntry : All IsAsciiEntry (mqtt_of env)
mqtt-IsAsciiEntry = (
  ascii_entry (codes "BROKER") (codes "10.0.0.1") refl refl,
  (
    ascii_entry (codes "PORT") (codes "1883") refl refl,
    (
      ascii_entry (codes "USERNAME") (codes "esp32") refl refl,
      (
        ascii_entry (codes "PASSWORD") (codes "p,w") refl refl,
        (ascii_entry (codes "SENSORS_TOPIC") [] refl refl, tt),
      ),
    ),
  ),
)

settings-IsAsciiEntry : All IsAsciiEntry settings
settings-IsAsciiEntry = (ascii_entry (codes "wifi") (codes "home") refl refl, tt)

csv_gen-generate_example : (length (value_of [] image) ≡ 12288) × All IsShort settings
unfolding int_base0 number_space is_ascii_space is_space strip drop_while read_literal read_prefixed
    read_digits read_char is_letter signed_by
csv_gen-generate_example =
    csv_gen-generate cipher files no_key (codes "0x3000") (codes "nvs.bin") 2 false none env
      settings 12288 cipher-IsXtsAes settings-found mqtt-IsEntry settings-IsEntry mqtt-IsAsciiEntry
      settings-IsAsciiEntry refl (omega arith) (ok_of [] image image_ok)

csv_gen-DeviceIn_example : DeviceIn (value_of [] image) env settings
unfolding int_base0 number_space is_ascii_space is_space strip drop_while read_literal read_prefixed
    read_digits read_char is_letter signed_by
csv_gen-DeviceIn_example =
    csv_gen-DeviceIn cipher files no_key (codes "0x3000") (codes "nvs.bin") 2 none env settings
      12288 cipher-IsXtsAes settings-found mqtt-IsEntry settings-IsEntry mqtt-IsAsciiEntry
      settings-IsAsciiEntry refl (omega arith) (ok_of [] image image_ok)
