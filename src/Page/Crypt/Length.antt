-- ===== src/Page/Crypt/Length.antt =====
-- The lengths of what `encrypt_entry` and `encrypt_data` return.
use pedge.Prelude.{
  ℕ, zero, suc, ◌+◌, ◌-◌, ◌*◌, ◌≡◌, ◌∙◌, arith, [], ◌++◌, ℤ, ◌+ℤ◌, pos, length, drop, length-append,
  length-take, length-replicate,
}
use pedge.Exceptions.{or_raise-eq-ok, ok, value_error, >>=-eq-ok}
use pedge.Python.Bytes.{Bytes, Str, slice}
use pedge.Python.Hex.Laws.{length-unhex}
use pedge.Python.Hex.{unhex, hexlify}
use pedge.Cipher.{XtsAes, IsXtsAes}
use pedge.State.{Nvs, Buffer}
use pedge.Page.Crypt.{
  data_padding, tweak_val, encrypt_entry, encrypt_loop, encr_key_input, encrypt_data, padded,
  rel_addr,
}

-- The text that is encrypted in each round has 64 hex digits.
length-data_val :
    (start : ℕ) (s : Str)
    → let data_bytes = slice start (start + 64) s in
      length (data_bytes ++ data_padding (64 - length data_bytes)) ≡ 64
length-data_val start s =
    let data_bytes = slice start (start + 64) s in
    omega (
      arith,
      length-append data_bytes (data_padding (64 - length data_bytes)),
      length-replicate {A = ℕ} (64 - length data_bytes) b'f',
      length-take (start + 64 - start) (drop start s),
    )

module _ (xts : XtsAes) (laws : IsXtsAes xts) where
  length-encrypt_entry :
      (s t : Str) (key : Bytes) {c : Bytes}
      → encrypt_entry xts s t key ≡ ok c
      → length s ≡ 2 * length c
  unfolding encrypt_entry
  length-encrypt_entry s t key h =
      let (plain, p, h₁) = >>=-eq-ok (unhex s) _ h in
      let (tweak, q, h₂) = >>=-eq-ok (unhex t) _ h₁ in
      let found = or_raise-eq-ok (xts.encryptor key tweak plain) value_error h₂ in
      omega (arith, length-unhex s p, laws.length-encryptor key tweak plain found)

  length-encrypt_loop :
      (key : Bytes) (base : ℤ) (s : Str) (rounds entry_no start : ℕ) (acc : Bytes) {out : Bytes}
      → encrypt_loop xts key base s rounds entry_no start acc ≡ ok out
      → length out ≡ length acc + 32 * rounds
  unfolding encrypt_loop
  length-encrypt_loop key base s zero entry_no start acc h = ground arith
  length-encrypt_loop key base s (suc rounds) entry_no start acc h =
      let data_bytes = slice start (start + 64) s in
      let data_val = data_bytes ++ data_padding (64 - length data_bytes) in
      let tweak = tweak_val (base +ℤ pos (entry_no * 32)) in
      let (c, p, h₁) = >>=-eq-ok (encrypt_entry xts data_val tweak key) _ h in
      omega (
        arith,
        length-encrypt_loop key base s rounds (entry_no + 1) (start + 64) (acc ++ c) h₁,
        length-append acc c,
        length-encrypt_entry data_val tweak key p,
        length-data_val start s,
      )

  -- An encryption that returns is 32 bytes long for each entry, whatever the data.
  pub length-encrypt_data :
      (nvs : Nvs) (entry_num : ℕ) (buffer : Buffer) (count : ℕ) {out : Bytes}
      → encrypt_data xts nvs entry_num buffer count ≡ ok out
      → length out ≡ 32 * count
  unfolding encrypt_data
  length-encrypt_data nvs entry_num buffer count h =
      let (key, p, h₁) = >>=-eq-ok (encr_key_input nvs.encr_key) _ h in
      length-encrypt_loop key (rel_addr nvs.page_num) (hexlify (padded buffer)) count entry_num 0 []
        h₁
      ∙ omega arith
