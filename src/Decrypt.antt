-- ===== src/Decrypt.antt =====
-- `decrypt_data` and `decrypt` of services/esp32-config-builder/nvs_partition_gen.py: from an
-- encrypted image to the image in the clear.
pub mod Length
pub mod Trip
pub mod Pages
pub mod Output
pub mod Steps
pub mod Turns
pub mod Image
use pedge.Prelude.{
  ℕ, zero, suc, ◌+◌, ◌*◌, List, [], ◌∷◌, ◌&&◌, not, ltb, ◌==◌, pos, ◌+ℤ◌, take, drop, length,
  if◌then◌else◌,
}
use pedge.Exceptions.{Result, ok, or_raise, value_error, system_exit, failure, guard, ◌>>=◌, ◌>>◌}
use pedge.Python.Bytes.{Bytes, Str, set_slice, erased}
use pedge.Python.Hex.{hexlify, unhex}
use pedge.Cipher.{XtsAes}
use pedge.State.{str_eq}
use pedge.Page.Crypt.{tweak_val, rel_addr}
use pedge.Generate.{is_bin_path}

-- The variables of the loop of `decrypt`.
pub record Progress : Type 0 where
  pub decrypted_entry_no : ℕ
  pub file_entry_no : ℕ
  pub page_num : ℕ
  pub start_entry_offset : ℕ
  pub output_buf : Bytes

abbrev pub nvs_read_bytes : ℕ
nvs_read_bytes = 32

abbrev pub start : Progress
start = record {
  decrypted_entry_no = 0;
  file_entry_no = 0;
  page_num = 0;
  start_entry_offset = 0;
  output_buf = 0xFF ∷ [];
}

-- After 128 entries a new page begins.
unfoldable pub turn_page : Progress → Progress
turn_page p =
    if p.file_entry_no == 128
    then record p { decrypted_entry_no = 0; file_entry_no = 0; page_num = p.page_num + 1 }
    else p

-- The store of an entry, and the counters after it; `end_idx` is 32 for every entry.
unfoldable pub store_entry : Bytes → Progress → Progress
store_entry data_entry p =
    let write_entry_no = p.page_num * 4096 + p.file_entry_no in
    let start_idx = p.start_entry_offset + write_entry_no * nvs_read_bytes in
    record p {
      output_buf = set_slice p.output_buf start_idx nvs_read_bytes data_entry;
      file_entry_no = p.file_entry_no + 1;
      start_entry_offset = p.start_entry_offset + nvs_read_bytes;
    }

-- The entries that the loop reads, `nvs_read_bytes` at a time.
unfoldable pub read_entries : ℕ → Bytes → List Bytes
read_entries zero image = []
read_entries (suc fuel) [] = []
read_entries (suc fuel) (b ∷ bs) =
    take nvs_read_bytes (b ∷ bs) ∷ read_entries fuel (drop nvs_read_bytes (b ∷ bs))

module _ (xts : XtsAes) where
  unfoldable pub decrypt_data : Bytes → Bytes → ℕ → ℕ → ℕ → Result Bytes
  decrypt_data data_input decr_key page_num entry_no entry_size = do
    plain_text ← unhex (hexlify data_input)
    tweak ← unhex (tweak_val (rel_addr (pos page_num) +ℤ pos (entry_no * entry_size)))
    or_raise (xts.decryptor decr_key tweak plain_text) value_error

  -- A round of the loop on an entry: the header, the bitmap and erased entries stay.
  unfoldable pub decrypt_entry : Bytes → Bytes → Progress → Result Progress
  unfolding store_entry decrypt_data
  decrypt_entry decr_key data_entry p =
      if not (str_eq data_entry (erased 32)) && ltb 1 p.file_entry_no
      then (decrypt_data data_entry decr_key p.page_num p.decrypted_entry_no nvs_read_bytes >>= λ d.
          ok (store_entry d (record p { decrypted_entry_no = p.decrypted_entry_no + 1 })))
      else ok (store_entry data_entry p)

  unfoldable pub decrypt_entries : Bytes → List Bytes → Progress → Result Bytes
  unfolding decrypt_entry turn_page
  decrypt_entries decr_key [] p = ok p.output_buf
  decrypt_entries decr_key (data_entry ∷ rest) p = do
    p' ← decrypt_entry decr_key data_entry (turn_page p)
    decrypt_entries decr_key rest p'

  -- `decrypt`, by the paths of the input, the key and the output, the contents of the key file and
  -- those of the input.
  unfoldable pub decrypt : Str → Str → Str → Bytes → Bytes → Result Bytes
  unfolding decrypt_entries read_entries
  decrypt input key output key_file image = do
    guard (is_bin_path input) (system_exit failure)
    guard (is_bin_path key) (system_exit failure)
    guard (is_bin_path output) (system_exit failure)
    decrypt_entries (take 64 key_file) (read_entries (length image) image) start
