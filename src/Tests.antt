-- ===== src/Tests.antt =====
-- The theorems at concrete inputs: a partition of three pages with a namespace and an entry, and a
-- cipher that leaves its data as they are.
mod Devices
mod Image
mod Output
mod CommandLine
mod Blob
use pedge.Prelude.{
  All, ℕ, zero, suc, ◌+◌, ◌≤◌, ◌<◌, ◌≡◌, refl, arith, length, List, [], ◌∷◌, Bool, true, false,
  Option, none, some, pos,
}
use pedge.Exceptions.{Result, ok, err}
use pedge.Python.Bytes.{Bytes, Str}
use pedge.Cipher.{XtsAes, IsXtsAes}
use pedge.State.{codes}
use pedge.Entries.{Files}
use pedge.Stored.Held.{InImage}
use pedge.Stored.Rows.{RowsThere}
use pedge.Stored.Image.{generate-RowsThere}
use pedge.Generate.{Row}
use pedge.Page.{
  checksum, set_version, page_header, set_header, create_bitmap_array, init, clear_bit,
  write_bitmaparray, mark_entries, mark_full, mark_previous_full,
}
use pedge.Generate.{
  mod_ℤ, ltb_ℤ, check_number, check_size, exit_if_input_error, exit_on_input_error, write_row,
  write_rows, page_version, is_bin_path, write_partition, generate,
}
use pedge.State.{to_encoding}
use pedge.Entries.{
  lower, strip_value, convert_value, convert, int_value, retry, or_on_new_page, write_primitive,
  write_namespace, write_supported, write_converted, write_entry, row_value, write_row_entry,
}
use pedge.Nvs.{
  no_space, take_page, create_new_page, new_nvs, nvs_open, join_pages, get_binary_data, fill_next,
  fill_pages, close_rounds, nvs_close,
}
use pedge.Python.Crc.{shift_bit, shift_bits, update_crc, crc32}
use pedge.Python.Path.{
  ends_with_slash, is_empty, split_last, split_dir, all_dots, splitext, has_prefix, contains,
}
use pedge.Python.Struct.{pack, pack_into, unpack}
use pedge.Python.Utf8.{encode_char, encode}
use pedge.Python.Number.{
  int_bytes, number_space, is_space, is_ascii_space, drop_while, strip, read_char, read_digits,
  signed_by, int, read_prefixed, is_letter, read_literal, int_base0,
}
use pedge.Python.Bytes.{set_slice, set_item, erased, zeros}
use pedge.Page.Entry.{
  set_crc_header, set_key, store_value, set_primitive, primitive_entry, write_entry_to_buf,
  write_primitive_data,
}
use mathlib.Core.Path.{subst}
use pedge.Prelude.{replicate, length-replicate, ◌⊎◌}
use pedge.Exceptions.{
  insufficient_size_error, ok-injective, page_full_error, input_error, size_exceeds_max,
}
use pedge.Python.Bytes.{length-erased}
use pedge.Python.Utf8.{IsAscii}
use pedge.State.{
  Page, Nvs, Value, text, binary, u8, string_encoding, binary_encoding, bytes, bytearray,
}
use pedge.Page.Init.{fresh_page, fresh_page-IsValid, MarkedFull, mark_full-MarkedFull}
use pedge.Page.Bitmap.{IsValid, Marked, mark_entries-Marked}
use pedge.Page.Write.{stored_bytes, Wrote, write_entry_to_buf-Wrote}
use pedge.Page.Shape.{FitsKey}
use pedge.Page.Crypt.Tweak.{tweak_val-le_bytes}
use pedge.Page.Crypt.Sectors.{encrypt_sectors, encrypt_data-sectors}
use pedge.Python.Struct.{le_bytes}
use pedge.Page.Crypt.Length.{length-encrypt_data}
use pedge.Nvs.Monad.{pure}
use pedge.Nvs.Space.{Sound, ClosedHead, with_new_page, create_new_page-ok, create_new_page_full}
use pedge.Nvs.Close.{Closed, IsImage, nvs_close-ok}
use pedge.Prelude.{inr}
use pedge.Nvs.Keeps.{Kept, Keeps}
use pedge.Varlen.Strings.{check_varlen-string, write_varlen_data-long_string}
use pedge.Varlen.Data.{check_varlen-room, write_varlen_data-Keeps}
use pedge.Varlen.Steps.{write_varlen_binary_data-Keeps}
use pedge.Varlen.Fuel.{write_varlen_binary_data-ends}
use pedge.Varlen.{
  write_varlen_on, write_by_kind, write_varlen_data, write_varlen_binary_data, blob_loop,
}
use pedge.Varlen.Headers.{
  set_span, set_type, varlen_header, to_bytes, set_sums, write_both, write_single_page_entry,
  check_varlen, entries_for, value_length,
}
use pedge.Page.Crypt
use pedge.Page.Crypt.{
  encrypt_data, encrypt_loop, encrypt_entry, encr_key_input, padded, rel_addr, tweak_val,
  reverse_hexbytes, hex_bytes,
}
use pedge.Python.Hex.{hexlify, unhex, hex, hex_digits, hex_digits_fuel, hex_digit, digit_value}
use pedge.State.{max_blob_size}
use pedge.Python.Utf8.{all_ascii, decode}
use pedge.Entries.{abs_file_path}
use pedge.Entries.Primitive.{write_primitive_data-Wrote, write_namespace-Keeps}
use pedge.Entries.Safe.{FitsInput, write_entry-Keeps}
use pedge.Generate.Rows.{FitsRow, write_rows-Keeps}
use pedge.Generate.Size.{Answer, check_size-Answer}
use pedge.Generate.Image.{generate-length}
use pedge.Generate.Accepted.{Accepted, generate-Accepted}
use pedge.Exceptions.{runtime_error}
use pedge.Generate.{encryption_key, encrypt}
use pedge.Generate.Headers.{HeaderIn, generate-HeaderIn}
use pedge.Decrypt.{
  decrypt, decrypt_entries, decrypt_entry, decrypt_data, turn_page, store_entry, read_entries,
}
use pedge.Decrypt.Length.{decrypt-length}
use pedge.Decrypt.Pages.{CryptPage, joined, all_chunks, plain_of, cipher_of}
use pedge.Decrypt.Image.{decrypt-pages}
use pedge.Decrypt.Trip.{decrypt_data-encrypt_entry}

abbrev pub cipher : XtsAes
cipher = record { encryptor = λ key tweak plain. some plain; decryptor = λ key tweak c. some c }

abbrev pub files : Files
files = record { cwd = codes "/app"; read = λ path. some (replicate 64 7) }

abbrev pub blob : Bytes
blob = 1 ∷ 2 ∷ 3 ∷ []

-- What `generate_key` would return is not asked for.
abbrev pub no_key : Result Bytes
no_key = err runtime_error

abbrev rows : List Row
rows =
    record {
      key = some (codes "wifi");
      datatype = some (codes "namespace");
      encoding = none;
      value = none;
    }
    ∷ record {
      key = some (codes "channel");
      datatype = some (codes "data");
      encoding = some (codes "u8");
      value = some (codes "11");
    }
    ∷ record {
      key = some (codes "motto");
      datatype = some (codes "file");
      encoding = some (codes "string");
      value = some (codes "motto.txt");
    }
    ∷ []

pub cipher-IsXtsAes : IsXtsAes cipher
cipher-IsXtsAes = record {
  length-encryptor = λ key tweak plain e. cc;
  length-decryptor = λ key tweak c e. cc;
  decryptor-encryptor = λ key tweak plain e. cc;
}

abbrev pub is_ok : {A : Type 0} → Result A → Bool
is_ok (ok a) = true
is_ok (err e) = false

abbrev pub value_of : {A : Type 0} → A → Result A → A
value_of d (ok a) = a
value_of d (err e) = d

pub ok_of : {A : Type 0} (d : A) (r : Result A) → is_ok r ≡ true → r ≡ ok (value_of d r)
ok_of d (ok a) h = refl
ok_of d (err e) h = cc

pub IsAscii-of : (s : Str) → all_ascii s ≡ true → IsAscii s
IsAscii-of [] h = tt
IsAscii-of (c ∷ s) h = (ground arith, IsAscii-of s (ground arith))

some-injective : {A : Type 0} {a b : A} → some a ≡ some b → a ≡ b
some-injective e = cc

fits_by :
    (enc : Str) (w : Option Value)
    → FitsInput (to_encoding enc) w
    → (e : Str) (v : Option Value) → some enc ≡ some e
    → ok w ≡ ok v
    → FitsInput (to_encoding e) v
fits_by enc w h e v f g =
    subst (λ (k : Str). FitsInput (to_encoding k) v) (some-injective f)
      (subst (λ (k : Option Value). FitsInput (to_encoding enc) k) (ok-injective g) h)

abbrev output : Result Bytes
output = generate cipher files no_key (codes "0x3000") (codes "nvs.bin") 2 false none rows

abbrev image : Bytes
image = value_of [] output

output_ok : is_ok output ≡ true
unfolding decode write_varlen_data write_varlen_on write_by_kind write_single_page_entry
    check_varlen varlen_header set_span set_type to_bytes set_sums write_both max_blob_size
    abs_file_path check_number check_size contains crc32 checksum clear_bit close_rounds
    create_bitmap_array create_new_page convert convert_value encode encode_char erased
    exit_if_input_error exit_on_input_error fill_next fill_pages generate get_binary_data init int
    int_bytes number_space int_base0 int_value is_ascii_space is_bin_path is_space join_pages lower
    mark_entries mark_full mark_previous_full mod_ℤ new_nvs no_space nvs_close nvs_open
    or_on_new_page pack pack_into page_header page_version primitive_entry retry row_value
    set_crc_header set_header set_item set_key set_primitive set_slice set_version split_dir
    splitext store_value strip strip_value take_page to_encoding unpack write_bitmaparray
    write_converted write_entry write_entry_to_buf write_namespace write_partition write_primitive
    write_primitive_data write_row write_row_entry write_rows write_supported zeros ends_with_slash
    is_empty split_last all_dots has_prefix drop_while read_char read_digits signed_by read_prefixed
    is_letter read_literal shift_bit shift_bits update_crc ltb_ℤ encryption_key
output_ok = refl

-- A new partition of two pages, and the reserved one, with a page made.
abbrev pub page : Page
page = fresh_page 0 0xFE

abbrev pub nvs : Nvs
nvs = record {
  size = some (pos 4096);
  encrypt = false;
  encr_key = none;
  namespace_idx = 0;
  page_num = pos 0;
  pages = page ∷ [];
  version = 0xFE;
}

pub nvs-Sound : Sound 2 1 nvs
nvs-Sound = record {
  size = refl;
  count = omega arith;
  page_num = refl;
  pages = (fresh_page-IsValid 0 0xFE, tt);
  small = omega arith;
}

-- The same with no space for another page.
abbrev last_nvs : Nvs
last_nvs = record nvs { size = some (pos 0) }

last_nvs-Sound : Sound 1 0 last_nvs
last_nvs-Sound = record {
  size = refl;
  count = omega arith;
  page_num = refl;
  pages = (fresh_page-IsValid 0 0xFE, tt);
  small = omega arith;
}

pub wifi-FitsKey : FitsKey (codes "wifi")
wifi-FitsKey = record { ascii = IsAscii-of (codes "wifi") refl; short = omega arith }

rows-FitsRow : All (FitsRow files) rows
unfolding row_value to_encoding decode abs_file_path
rows-FitsRow = (
  record {
    fits_key = λ key e. subst IsAscii (some-injective e) (IsAscii-of (codes "wifi") refl);
    fits_value = λ e v f g. cc;
  },
  (
    record {
      fits_key = λ key e. subst IsAscii (some-injective e) (IsAscii-of (codes "channel") refl);
      fits_value = fits_by (codes "u8") (some (text (codes "11"))) (IsAscii-of (codes "11") refl);
    },
    (
      record {
        fits_key = λ key e. subst IsAscii (some-injective e) (IsAscii-of (codes "motto") refl);
        fits_value =
            fits_by (codes "string") (some (binary (replicate 64 7)))
              (IsAscii-of (replicate 64 7) refl);
      },
      tt,
    ),
  ),
)

generate-Accepted_example : All Accepted rows
generate-Accepted_example =
    generate-Accepted cipher files no_key (codes "0x3000") (codes "nvs.bin") 2 false none rows
      (ok_of [] output output_ok)

generate-length_example : length image ≡ 12288
unfolding int_base0 number_space is_ascii_space is_space strip drop_while read_literal read_prefixed
    read_digits read_char is_letter signed_by
generate-length_example =
    generate-length cipher files no_key (codes "0x3000") (codes "nvs.bin") 2 false none rows 12288
      cipher-IsXtsAes rows-FitsRow refl (omega arith) (ok_of [] output output_ok)

generate-RowsThere_example : RowsThere (λ bs. InImage bs image) files 0 rows
unfolding int_base0 number_space is_ascii_space is_space strip drop_while read_literal read_prefixed
    read_digits read_char is_letter signed_by
generate-RowsThere_example =
    generate-RowsThere cipher files no_key (codes "0x3000") (codes "nvs.bin") 2 none rows 12288
      cipher-IsXtsAes rows-FitsRow refl (omega arith) (ok_of [] output output_ok)

nvs_close-ok_example :
    (m : Nvs) × (nvs_close nvs ≡ (ok (get_binary_data m), m))
    × (c : Closed 2 m) × Kept (page ∷ []) c.older
    × IsImage 2 c.older (get_binary_data m)
nvs_close-ok_example = nvs_close-ok 2 1 nvs nvs-Sound

write_rows-Keeps_example : Keeps 2 nvs (write_rows cipher files rows nvs).1
write_rows-Keeps_example =
    write_rows-Keeps cipher files rows 2 1 nvs cipher-IsXtsAes rows-FitsRow nvs-Sound

write_entry-Keeps_example :
    Keeps 2 nvs
      (write_entry cipher (codes "wifi") (some (text (codes "home"))) (some (codes "string")) nvs).1
unfolding to_encoding
write_entry-Keeps_example =
    write_entry-Keeps cipher (codes "wifi") (some (text (codes "home"))) (codes "string") 2 1 nvs
      cipher-IsXtsAes wifi-FitsKey (IsAscii-of (codes "home") refl) nvs-Sound

write_varlen_data-Keeps_example :
    Keeps 2 nvs (write_varlen_data cipher (codes "wifi") (binary blob) binary_encoding 1 nvs).1
write_varlen_data-Keeps_example =
    write_varlen_data-Keeps cipher (codes "wifi") (binary blob) binary_encoding 1 2 1 nvs
      cipher-IsXtsAes wifi-FitsKey tt nvs-Sound

write_varlen_binary_data-Keeps_example :
    Keeps 2 nvs (write_varlen_binary_data cipher (erased 32) (binary blob) 3 nvs).1
write_varlen_binary_data-Keeps_example =
    write_varlen_binary_data-Keeps cipher (erased 32) (binary blob) 3 2 1 nvs cipher-IsXtsAes tt
      (length-erased 32) nvs-Sound

write_varlen_binary_data-ends_example :
    write_varlen_binary_data cipher (erased 32) (binary blob) 3 nvs
    ≡ blob_loop cipher (pure tt) 4 (binary blob) 3 (erased 32) 0 0 3 nvs
write_varlen_binary_data-ends_example =
    write_varlen_binary_data-ends cipher (pure tt) 4 (erased 32) (binary blob) 3 nvs (omega arith)

check_size-Answer_example : Answer (int_base0 (codes "0x3000")) (check_size (codes "0x3000"))
check_size-Answer_example = check_size-Answer (codes "0x3000")

create_new_page-ok_example :
    (qs : List Page) × ClosedHead (page ∷ []) qs
    × (create_new_page false nvs ≡ (ok tt, with_new_page 0 qs nvs))
    × Sound 2 0 (with_new_page 0 qs nvs)
create_new_page-ok_example = create_new_page-ok 0 nvs-Sound

create_new_page_full_example :
    (qs : List Page) × ClosedHead (page ∷ []) qs
    × (create_new_page false last_nvs
        ≡ (err insufficient_size_error, record last_nvs { pages = qs }))
    × Sound 1 0 (record last_nvs { pages = qs })
create_new_page_full_example = create_new_page_full last_nvs-Sound

page-IsValid : IsValid page
page-IsValid = fresh_page-IsValid 0 0xFE

page_room : (k : ℕ) → k ≤ 126 → page.entry_num + k ≤ 126
unfolding fresh_page
page_room k h = omega arith

write_entry_to_buf-Wrote_example :
    (q : Page) × (write_entry_to_buf cipher nvs page (bytes blob) 1 ≡ ok q) × Wrote page blob 1 q
write_entry_to_buf-Wrote_example =
    write_entry_to_buf-Wrote cipher nvs page (bytes blob) 1 blob page-IsValid
      (page_room 1 (omega arith)) refl (omega arith)

mark_entries-Marked_example : (q : Page) × (mark_entries 5 page ≡ ok q) × Marked page 5 q
mark_entries-Marked_example = mark_entries-Marked 5 page page-IsValid (page_room 5 (omega arith))

abbrev channel : Result Page
channel = write_primitive_data cipher nvs page (codes "channel") (pos 11) u8 1

channel_ok : is_ok channel ≡ true
unfolding write_primitive_data primitive_entry set_item erased set_key encode encode_char set_slice
    zeros set_primitive store_value pack_into pack set_crc_header checksum crc32 update_crc
    shift_bits shift_bit write_entry_to_buf mark_entries write_bitmaparray clear_bit fresh_page
    create_bitmap_array
channel_ok = refl

channel-FitsKey : FitsKey (codes "channel")
channel-FitsKey = record { ascii = IsAscii-of (codes "channel") refl; short = omega arith }

write_primitive_data-Wrote_example :
    (es : Bytes) × (out : Bytes) × (primitive_entry (codes "channel") (pos 11) u8 1 ≡ ok es)
    × (stored_bytes cipher nvs page.entry_num (bytearray es) 1 ≡ ok out)
    × Wrote page out 1 (value_of page channel)
write_primitive_data-Wrote_example =
    write_primitive_data-Wrote cipher nvs page (codes "channel") (pos 11) u8 1 cipher-IsXtsAes
      page-IsValid channel-FitsKey (ok_of page channel channel_ok)

-- With encryption, under a key of 64 bytes.
abbrev encrypting : Nvs
encrypting = record nvs { encrypt = true; encr_key = some (replicate 64 7) }

abbrev encrypted : Result Bytes
encrypted = encrypt_data cipher encrypting 2 (bytes blob) 1

encrypted_ok : is_ok encrypted ≡ true
unfolding encrypt_data encrypt_loop encrypt_entry encr_key_input padded rel_addr tweak_val
    reverse_hexbytes hex_bytes Crypt.join hexlify unhex hex hex_digits hex_digits_fuel hex_digit
    digit_value set_slice erased
encrypted_ok = refl

length-encrypt_data_example : length (value_of [] encrypted) ≡ 32
length-encrypt_data_example =
    length-encrypt_data cipher cipher-IsXtsAes encrypting 2 (bytes blob) 1
      (ok_of [] encrypted encrypted_ok)

mark_full-MarkedFull_example : (q : Page) × (mark_full page ≡ ok q) × MarkedFull page q
mark_full-MarkedFull_example = mark_full-MarkedFull page page-IsValid

abbrev long_string : Str
long_string = replicate 3990 b'a'

length-long_string : length long_string ≡ 3990
length-long_string = length-replicate {A = ℕ} 3990 b'a'

check_varlen-string_example :
    ((length long_string ≤ 3968) × (check_varlen page (text long_string) string_encoding ≡ ok tt))
    ⊎ (((3968 < length long_string)
          × (length long_string ≤ 4000)
          × (check_varlen page (text long_string) string_encoding ≡ err page_full_error))
        ⊎ ((4000 < length long_string)
            × (check_varlen page (text long_string) string_encoding
                ≡ err (input_error size_exceeds_max))))
unfolding fresh_page
check_varlen-string_example = check_varlen-string page long_string refl refl

write_varlen_data-long_string_example :
    write_varlen_data cipher (codes "wifi") (text long_string) string_encoding 1 nvs
    ≡ (err page_full_error, nvs)
unfolding fresh_page
write_varlen_data-long_string_example =
    write_varlen_data-long_string cipher (codes "wifi") long_string 1 nvs page [] refl refl
      (omega (arith, length-long_string)) (omega (arith, length-long_string))

generate-HeaderIn_example : HeaderIn image (page_version 2) 1
unfolding int_base0 number_space is_ascii_space is_space strip drop_while read_literal read_prefixed
    read_digits read_char is_letter signed_by
generate-HeaderIn_example =
    generate-HeaderIn cipher files no_key (codes "0x3000") (codes "nvs.bin") 2 false none rows 12288
      1 cipher-IsXtsAes rows-FitsRow (inr refl) refl (omega arith) (omega arith)
      (ok_of [] output output_ok)

abbrev encrypted_output : Result Bytes
encrypted_output =
    encrypt cipher files no_key (codes "0x3000") (codes "nvs.bin") 2 false (codes "key.bin") rows

-- An image of three entries, of which the last is decrypted.
abbrev stored : Bytes
stored = replicate 96 9

abbrev decrypted : Result Bytes
decrypted = decrypt cipher (codes "in.bin") (codes "key.bin") (codes "out.bin") [] stored

decrypted_ok : is_ok decrypted ≡ true
unfolding decrypt decrypt_entries decrypt_entry decrypt_data turn_page store_entry read_entries
    is_bin_path splitext split_dir split_last all_dots has_prefix contains is_empty set_slice erased
    rel_addr tweak_val reverse_hexbytes hex_bytes Crypt.join hexlify unhex hex hex_digits
    hex_digits_fuel hex_digit digit_value
decrypted_ok = refl

decrypt-length_example : length (value_of [] decrypted) ≡ 96
decrypt-length_example =
    decrypt-length cipher (codes "in.bin") (codes "key.bin") (codes "out.bin") [] stored
      cipher-IsXtsAes (omega arith) (ok_of [] decrypted decrypted_ok)

decrypt_data-encrypt_entry_example : decrypt_data cipher blob (replicate 64 7) 0 5 32 ≡ ok blob
unfolding encrypt_entry rel_addr tweak_val reverse_hexbytes hex_bytes Crypt.join hexlify unhex hex
    hex_digits hex_digits_fuel hex_digit digit_value
decrypt_data-encrypt_entry_example =
    decrypt_data-encrypt_entry cipher blob (replicate 64 7) 0 5 cipher-IsXtsAes
      (omega arith, (omega arith, (omega arith, tt)))
      (omega arith, (omega arith, (omega arith, tt))) refl

fives : (n : ℕ) → All (λ b. b < 256) (replicate n 5)
fives zero = tt
fives (suc n) = (omega arith, fives n)

encrypt_data-sectors_example :
    encrypt_data cipher encrypting 2 (bytearray (replicate 64 5)) 2
    ≡ encrypt_sectors cipher (replicate 64 7) 128 2 (replicate 64 5)
unfolding padded encr_key_input
encrypt_data-sectors_example =
    encrypt_data-sectors cipher encrypting 2 0 2 (bytearray (replicate 64 5)) refl
      (length-replicate {A = ℕ} 64 5) (fives 64) (omega arith)

tweak_val-le_bytes_example : unhex (tweak_val (pos 4160)) ≡ ok (le_bytes 16 4160)
tweak_val-le_bytes_example = tweak_val-le_bytes 4160 (omega arith) (omega arith)

-- A page with an entry, and the reserved page.
abbrev crypt_page : CryptPage
crypt_page = record {
  header_entry = replicate 32 1;
  bitmap = replicate 32 2;
  entries = (replicate 32 5, replicate 32 5) ∷ [];
  free = 125;
}

abbrev blank_page : CryptPage
blank_page = record {
  header_entry = replicate 32 0xFF;
  bitmap = replicate 32 0xFF;
  entries = [];
  free = 126;
}

decrypt-pages_example :
    decrypt cipher
      (codes "in.bin")
      (codes "key.bin")
      (codes "out.bin")
      (replicate 64 7)
      (joined (all_chunks cipher_of (crypt_page ∷ blank_page ∷ [])))
    ≡ ok (joined (all_chunks plain_of (crypt_page ∷ blank_page ∷ [])))
unfolding is_bin_path splitext split_dir split_last all_dots has_prefix contains is_empty erased
decrypt-pages_example =
    decrypt-pages cipher (codes "in.bin") (codes "key.bin") (codes "out.bin") (replicate 64 7)
      crypt_page (blank_page ∷ []) cipher-IsXtsAes refl refl refl (omega arith)
      (
        record {
          length_header = refl;
          length_bitmap = refl;
          sealed = (refl, refl, fives 32, refl, tt);
          filled = refl;
        },
        (record { length_header = refl; length_bitmap = refl; sealed = tt; filled = refl }, tt),
      )
