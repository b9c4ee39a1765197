-- ===== src/Tests/Output.antt =====
-- A run of `generate` with its files, for a device.
use pedge.Prelude.{◌≡◌, refl, [], true, false, none}
use pedge.Exceptions.{Result}
use pedge.Python.Bytes.{Bytes, Str}
use pedge.State.{codes}
use pedge.Page.{
  checksum, set_version, page_header, set_header, create_bitmap_array, init, clear_bit,
  write_bitmaparray, mark_entries, mark_full, mark_previous_full,
}
use pedge.Generate.{
  mod_ℤ, ltb_ℤ, check_number, check_size, exit_if_input_error, exit_on_input_error, write_row,
  write_rows, page_version, is_bin_path, write_partition, generate,
}
use pedge.State.{to_encoding}
use pedge.Entries.{
  lower, strip_value, convert_value, convert, int_value, retry, or_on_new_page, write_primitive,
  write_namespace, write_supported, write_converted, write_entry, row_value, write_row_entry,
}
use pedge.Nvs.{
  no_space, take_page, create_new_page, new_nvs, nvs_open, join_pages, get_binary_data, fill_next,
  fill_pages, close_rounds, nvs_close,
}
use pedge.Python.Crc.{shift_bit, shift_bits, update_crc, crc32}
use pedge.Python.Path.{
  ends_with_slash, is_empty, split_last, split_dir, all_dots, splitext, has_prefix, contains,
}
use pedge.Python.Struct.{pack, pack_into, unpack}
use pedge.Python.Utf8.{encode_char, encode}
use pedge.Python.Number.{
  int_bytes, number_space, is_space, is_ascii_space, drop_while, strip, read_char, read_digits,
  signed_by, int, read_prefixed, is_letter, read_literal, int_base0,
}
use pedge.Python.Bytes.{set_slice, set_item, erased, zeros}
use pedge.Page.Entry.{
  set_crc_header, set_key, store_value, set_primitive, primitive_entry, write_entry_to_buf,
  write_primitive_data,
}
use pedge.Varlen.{write_varlen_data, write_varlen_binary_data, blob_loop}
use pedge.Varlen.Headers.{check_varlen}
use pedge.State.{max_blob_size}
use pedge.Generate.{encryption_key}
use pedge.Tests.{is_ok, value_of, cipher}
use pedge.Csv.{
  read_input, read_csv, universal_newlines, lines, without_comments, read_records, feed_line,
  process_char, process_eol, begin_field, go_on, last_record, dict_rows, to_rows, to_row, dict_get,
  write_csv, write_fields, write_field,
}
use pedge.Csv.Config.{
  csv_gen, settings_of, read_settings, config_rows, namespace_rows, start_namespace,
  add_string_data,
}
use pedge.Varlen.{
  blob_next, blob_turn, blob_round, blob_loop, write_varlen_binary_data, write_by_kind,
  write_varlen_on, write_varlen_data,
}
use pedge.Varlen.Headers.{
  index_entry, write_index, write_chunk, chunk_header, set_type, varlen_header, set_span, to_bytes,
  write_both, set_sums, write_single_page_entry, check_varlen,
}
use pedge.Page.Crypt
use pedge.Page.Crypt.{
  encrypt_data, encrypt_loop, encrypt_entry, encr_key_input, padded, rel_addr, tweak_val,
  reverse_hexbytes, hex_bytes,
}
use pedge.Python.Hex.{hexlify, unhex, hex, hex_digits, hex_digits_fuel, hex_digit, digit_value}
use pedge.Python.Utf8.{decode}
use pedge.Python.Path.{isabs, join, dirname, all_slashes, strip_slashes}
use pedge.Keys.{
  with_bin_ext, set_target_filepath, generate_key, new_key, key_buffer, key_name, hmac_key,
}
use pedge.Generate.Output.{
  Args, made_key, image_of, write_output, generate_file, close_output, remove_output,
}
use pedge.Generate.Output.Outcome.{IsLeft, write_output-IsLeft}
use pedge.Generate.Output.Run.{Ran, generate_file-Ran}
use pedge.Tests.Devices.{disk, disk-IsDisk, hmac, draws, written, returned}
use pedge.Prelude.{◌⊎◌, Option, none, some, true, if◌then◌else◌, pos}
use pedge.Exceptions.{os_error, ok, err}
use pedge.State.{str_eq}
use pedge.Prelude.{replicate}
use pedge.Generate.{input_key}
use pedge.Generate.Encrypt.{OneKey}
use pedge.Generate.Output.{files_at, encrypt_file}
use pedge.Generate.Output.Encrypt.{encrypt_file-Ran}
use pedge.Decrypt.{
  decrypt_entries, decrypt_entry, decrypt_data, turn_page, store_entry, read_entries,
}
use pedge.Decrypt.Output.{Decrypted, decrypt_open, decrypt_file, decrypt_file-Decrypted}

-- The options of an encryption whose key is made.
abbrev args : Args
args = record {
  size = codes "0x3000";
  input = codes "/app/in.csv";
  output = codes "nvs.bin";
  version = 2;
  key_args = record {
    outdir = codes "/app";
    keyfile = codes "key.bin";
    key_protect_hmac = false;
    kp_hmac_keygen = false;
    kp_hmac_keyfile = [];
    kp_hmac_inputkey = [];
  };
}

abbrev before : Str → Option Bytes
before path = if str_eq path (codes "/app/in.csv") then some (value_of [] written) else none

abbrev run : Result (Unit {0}) × (Str → Option Bytes)
run = generate_file disk cipher (codes "/app") args hmac draws true none before

run_ok : is_ok run.0 ≡ true
unfolding csv_gen settings_of read_settings config_rows namespace_rows start_namespace
    add_string_data read_input read_csv universal_newlines lines without_comments read_records
    feed_line process_char process_eol begin_field go_on last_record dict_rows to_rows to_row
    dict_get write_csv write_fields write_field check_number check_size contains crc32 checksum
    clear_bit close_rounds create_bitmap_array create_new_page convert convert_value encode
    encode_char erased exit_if_input_error exit_on_input_error fill_next fill_pages generate
    get_binary_data init int int_bytes number_space int_base0 int_value is_ascii_space is_bin_path
    is_space join_pages lower mark_entries mark_full mark_previous_full mod_ℤ new_nvs no_space
    nvs_close nvs_open or_on_new_page pack pack_into page_header page_version primitive_entry retry
    row_value set_crc_header set_header set_item set_key set_primitive set_slice set_version
    split_dir splitext store_value strip strip_value take_page to_encoding unpack write_bitmaparray
    write_converted write_entry write_entry_to_buf write_namespace write_partition write_primitive
    write_primitive_data write_row write_row_entry write_rows write_supported zeros ends_with_slash
    is_empty split_last all_dots has_prefix drop_while read_char read_digits signed_by read_prefixed
    is_letter read_literal shift_bit shift_bits update_crc ltb_ℤ encryption_key blob_next blob_turn
    blob_round blob_loop write_varlen_binary_data write_by_kind write_varlen_on write_varlen_data
    to_bytes set_sums chunk_header index_entry set_span set_type varlen_header check_varlen
    write_both write_chunk write_index write_single_page_entry max_blob_size decode isabs join
    dirname all_slashes strip_slashes with_bin_ext set_target_filepath generate_key new_key
    key_buffer key_name hmac_key made_key image_of write_output generate_file close_output
    remove_output encrypt_data encrypt_loop encrypt_entry encr_key_input padded rel_addr tweak_val
    reverse_hexbytes hex_bytes Crypt.join hexlify unhex hex hex_digits hex_digits_fuel hex_digit
    digit_value
run_ok = refl

generate_file-Ran_example : Ran disk cipher (codes "/app") args hmac draws true none before run.1
generate_file-Ran_example =
    generate_file-Ran disk cipher (codes "/app") args hmac draws true none before disk-IsDisk
      (returned tt run run_ok)

-- The `with` statement alone, in the clear.
abbrev body : Result (Unit {0}) × (Str → Option Bytes)
body =
    write_output disk cipher (codes "/app") args (pos 8192) (codes "/app/nvs.bin") false none before

write_output-IsLeft_example :
    ((before (codes "/app/in.csv") ≡ none) × (body ≡ (err os_error, before)))
    ⊎ IsLeft disk
        (codes "/app/nvs.bin")
        (image_of disk cipher
          (codes "/app")
          args
          (pos 8192)
          false
          none
          (disk.write_file (codes "/app/nvs.bin") [] before))
        body.0
        body.1
unfolding split_dir split_last is_empty
write_output-IsLeft_example =
    write_output-IsLeft disk cipher (codes "/app") args disk-IsDisk (pos 8192)
      (codes "/app/nvs.bin") false none before refl

-- The same by `encrypt`, with the option that has a key made.
abbrev encrypted : Result (Unit {0}) × (Str → Option Bytes)
encrypted = encrypt_file disk cipher (codes "/app") args hmac draws true [] before

encrypted_ok : is_ok encrypted.0 ≡ true
unfolding csv_gen settings_of read_settings config_rows namespace_rows start_namespace
    add_string_data read_input read_csv universal_newlines lines without_comments read_records
    feed_line process_char process_eol begin_field go_on last_record dict_rows to_rows to_row
    dict_get write_csv write_fields write_field check_number check_size contains crc32 checksum
    clear_bit close_rounds create_bitmap_array create_new_page convert convert_value encode
    encode_char erased exit_if_input_error exit_on_input_error fill_next fill_pages generate
    get_binary_data init int int_bytes number_space int_base0 int_value is_ascii_space is_bin_path
    is_space join_pages lower mark_entries mark_full mark_previous_full mod_ℤ new_nvs no_space
    nvs_close nvs_open or_on_new_page pack pack_into page_header page_version primitive_entry retry
    row_value set_crc_header set_header set_item set_key set_primitive set_slice set_version
    split_dir splitext store_value strip strip_value take_page to_encoding unpack write_bitmaparray
    write_converted write_entry write_entry_to_buf write_namespace write_partition write_primitive
    write_primitive_data write_row write_row_entry write_rows write_supported zeros ends_with_slash
    is_empty split_last all_dots has_prefix drop_while read_char read_digits signed_by read_prefixed
    is_letter read_literal shift_bit shift_bits update_crc ltb_ℤ encryption_key blob_next blob_turn
    blob_round blob_loop write_varlen_binary_data write_by_kind write_varlen_on write_varlen_data
    to_bytes set_sums chunk_header index_entry set_span set_type varlen_header check_varlen
    write_both write_chunk write_index write_single_page_entry max_blob_size decode isabs join
    dirname all_slashes strip_slashes with_bin_ext set_target_filepath generate_key new_key
    key_buffer key_name hmac_key made_key image_of write_output generate_file close_output
    remove_output encrypt_data encrypt_loop encrypt_entry encr_key_input padded rel_addr tweak_val
    reverse_hexbytes hex_bytes Crypt.join hexlify unhex hex hex_digits hex_digits_fuel hex_digit
    digit_value encrypt_file input_key
encrypted_ok = refl

encrypt_file-Ran_example :
    OneKey true []
    × ((key : Option Bytes) × (input_key (files_at disk cipher (codes "/app") args before) []
          ≡ ok key)
        × Ran disk cipher (codes "/app") args hmac draws true key before encrypted.1)
encrypt_file-Ran_example =
    encrypt_file-Ran disk cipher (codes "/app") args hmac draws true [] before disk-IsDisk
      (returned tt encrypted encrypted_ok)

-- A disk with a key file and an image of three entries.
abbrev sealed : Str → Option Bytes
sealed path =
    if str_eq path (codes "/app/key.bin")
    then some (replicate 64 7)
    else if str_eq path (codes "/app/in.bin")
    then some (replicate 96 9)
    else none

abbrev decrypted : Result (Unit {0}) × (Str → Option Bytes)
decrypted =
    decrypt_file disk cipher (codes "/app") (codes "/app/in.bin") (codes "/app/key.bin")
      (codes "out.bin") sealed

decrypted_ok : is_ok decrypted.0 ≡ true
unfolding csv_gen settings_of read_settings config_rows namespace_rows start_namespace
    add_string_data read_input read_csv universal_newlines lines without_comments read_records
    feed_line process_char process_eol begin_field go_on last_record dict_rows to_rows to_row
    dict_get write_csv write_fields write_field check_number check_size contains crc32 checksum
    clear_bit close_rounds create_bitmap_array create_new_page convert convert_value encode
    encode_char erased exit_if_input_error exit_on_input_error fill_next fill_pages generate
    get_binary_data init int int_bytes number_space int_base0 int_value is_ascii_space is_bin_path
    is_space join_pages lower mark_entries mark_full mark_previous_full mod_ℤ new_nvs no_space
    nvs_close nvs_open or_on_new_page pack pack_into page_header page_version primitive_entry retry
    row_value set_crc_header set_header set_item set_key set_primitive set_slice set_version
    split_dir splitext store_value strip strip_value take_page to_encoding unpack write_bitmaparray
    write_converted write_entry write_entry_to_buf write_namespace write_partition write_primitive
    write_primitive_data write_row write_row_entry write_rows write_supported zeros ends_with_slash
    is_empty split_last all_dots has_prefix drop_while read_char read_digits signed_by read_prefixed
    is_letter read_literal shift_bit shift_bits update_crc ltb_ℤ encryption_key blob_next blob_turn
    blob_round blob_loop write_varlen_binary_data write_by_kind write_varlen_on write_varlen_data
    to_bytes set_sums chunk_header index_entry set_span set_type varlen_header check_varlen
    write_both write_chunk write_index write_single_page_entry max_blob_size decode isabs join
    dirname all_slashes strip_slashes with_bin_ext set_target_filepath generate_key new_key
    key_buffer key_name hmac_key made_key image_of write_output generate_file close_output
    remove_output encrypt_data encrypt_loop encrypt_entry encr_key_input padded rel_addr tweak_val
    reverse_hexbytes hex_bytes Crypt.join hexlify unhex hex hex_digits hex_digits_fuel hex_digit
    digit_value decrypt_file decrypt_open decrypt_entries decrypt_entry decrypt_data turn_page
    store_entry read_entries
decrypted_ok = refl

decrypt_file-Decrypted_example :
    Decrypted disk cipher
      (codes "/app")
      (codes "/app/in.bin")
      (codes "/app/key.bin")
      (codes "out.bin")
      sealed
      decrypted.1
decrypt_file-Decrypted_example =
    decrypt_file-Decrypted disk cipher (codes "/app") (codes "/app/in.bin") (codes "/app/key.bin")
      (codes "out.bin") sealed disk-IsDisk (returned tt decrypted decrypted_ok)
