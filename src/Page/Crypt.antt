-- ===== src/Page/Crypt.antt =====
-- `reverse_hexbytes`, `Page.encrypt_entry` and `Page.encrypt_data`.
pub mod Length
pub mod Tweak
pub mod Sectors
use pedge.Prelude.{
  ℕ, zero, suc, ◌+◌, ◌-◌, ◌*◌, ◌%◌, List, [], ◌∷◌, ◌++◌, Option, none, some, reverse, ltb, ◌==◌, ℤ,
  pos, ◌+ℤ◌, ◌*ℤ◌, length, drop, replicate, if◌then◌else◌,
}
use pedge.Exceptions.{Result, ok, err, value_error, type_error, or_raise, ◌>>=◌}
use pedge.Python.Bytes.{Bytes, Str, slice, set_slice, erased}
use pedge.Python.Hex.{hex, hexlify, unhex}
use pedge.Cipher.{XtsAes}
use pedge.State.{Nvs, Buffer, bytearray, bytes, max_size, first_entry_offset, single_entry_size}

-- `addr_tmp[i:i + 2]` for every second `i`.
unfoldable pub hex_bytes : Str → List Str
hex_bytes [] = []
hex_bytes (c ∷ []) = (c ∷ []) ∷ []
hex_bytes (c ∷ d ∷ s) = (c ∷ d ∷ []) ∷ hex_bytes s

-- `''.join(parts)`.
unfoldable pub join : List Str → Str
join [] = []
join (s ∷ parts) = s ++ join parts

unfoldable pub reverse_hexbytes : Str → Str
unfolding hex_bytes join
reverse_hexbytes addr_tmp = join (reverse (hex_bytes addr_tmp))

-- `'0' * n` and `'f' * n`.
abbrev pub tweak_padding : ℕ → Str
tweak_padding n = replicate n b'0'

abbrev pub data_padding : ℕ → Str
data_padding n = replicate n b'f'

-- The tweak of `encrypt_data` and `decrypt_data`, in hex, for the address of an entry.
unfoldable pub tweak_val : ℤ → Str
unfolding reverse_hexbytes
tweak_val address =
    let addr = drop 2 (hex address) in
    let addr_len = length addr in
    if ltb 2 addr_len
    then (let tweak_tmp = reverse_hexbytes (if addr_len % 2 == 0 then addr else b'0' ∷ addr) in
        tweak_tmp ++ tweak_padding (32 - length tweak_tmp))
    else addr ++ tweak_padding (32 - length addr)

module _ (xts : XtsAes) where
  -- `Page.encrypt_entry`: both texts are hex.
  unfoldable pub encrypt_entry : Str → Str → Bytes → Result Bytes
  encrypt_entry data_arr tweak_arr encr_key = do
    plain_text ← unhex data_arr
    tweak ← unhex tweak_arr
    or_raise (xts.encryptor encr_key tweak plain_text) value_error

  -- The loop of `encrypt_data`; the first number counts the rounds left.
  unfoldable pub encrypt_loop : Bytes → ℤ → Str → ℕ → ℕ → ℕ → Bytes → Result Bytes
  encrypt_loop key rel_addr data_input zero entry_no start_idx encr_data = ok encr_data
  encrypt_loop key rel_addr data_input (suc rounds) entry_no start_idx encr_data = do
    let offset = entry_no * single_entry_size
    let data_bytes = slice start_idx (start_idx + 64) data_input
    let data_val = data_bytes ++ data_padding (64 - length data_bytes)
    encr_data_ret ← encrypt_entry data_val (tweak_val (rel_addr +ℤ pos offset)) key
    encrypt_loop key rel_addr data_input rounds (entry_no + 1) (start_idx + 64)
        (encr_data ++ encr_data_ret)

-- The key of `encrypt_data`: 64 raw bytes, or their hex.
unfoldable pub encr_key_input : Option Bytes → Result Bytes
encr_key_input none = err type_error
encr_key_input (some key) = if length key == 64 then ok key else unhex key

-- `encrypt_data` fills up to one entry a buffer that is no `bytearray`.
unfoldable pub padded : Buffer → Bytes
padded (bytearray bs) = bs
padded (bytes bs) = set_slice (erased 32) 0 (length bs) bs

-- The address in the partition of the first entry of a page.
unfoldable pub rel_addr : ℤ → ℤ
rel_addr page_num = page_num *ℤ pos max_size +ℤ pos first_entry_offset

-- `Page.encrypt_data`, with the page's `entry_num`.
unfoldable pub encrypt_data : XtsAes → Nvs → ℕ → Buffer → ℕ → Result Bytes
unfolding encrypt_loop encr_key_input padded rel_addr
encrypt_data xts nvs_obj entry_num data_input no_of_entries = do
  key ← encr_key_input nvs_obj.encr_key
  encrypt_loop xts key (rel_addr nvs_obj.page_num) (hexlify (padded data_input)) no_of_entries
      entry_num 0 []
