-- ===== src/Decrypt/Trip.antt =====
-- `decrypt_data` after `encrypt_entry`.
use pedge.Prelude.{All, ℕ, ◌*◌, ◌<◌, ◌≡◌, ◌∙◌, sym, ap, pos, ◌+ℤ◌}
use pedge.Exceptions.{ok, or_raise-eq-ok, value_error, >>=-eq-ok, ok-injective}
use pedge.Python.Bytes.{Bytes}
use pedge.Python.Hex.Laws.{unhex-hexlify}
use pedge.Python.Hex.{hexlify, unhex}
use pedge.Cipher.{XtsAes, IsXtsAes}
use pedge.Page.Crypt.{tweak_val, rel_addr, encrypt_entry}
use pedge.Decrypt.{decrypt_data}

-- What encrypt_entry returned for an entry under the tweak of its address, decrypt_data turns back
-- into that entry, if both are lists of bytes.
pub decrypt_data-encrypt_entry :
    (xts : XtsAes) (plain key : Bytes) (page_num entry_no : ℕ) {c : Bytes}
    → IsXtsAes xts
    → All (λ b. b < 256) plain
    → All (λ b. b < 256) c
    → encrypt_entry xts
        (hexlify plain)
        (tweak_val (rel_addr (pos page_num) +ℤ pos (entry_no * 32)))
        key
      ≡ ok c
    → decrypt_data xts c key page_num entry_no 32 ≡ ok plain
unfolding encrypt_entry decrypt_data
decrypt_data-encrypt_entry xts plain key page_num entry_no {c} laws p_bytes c_bytes h =
    let hex_tweak = tweak_val (rel_addr (pos page_num) +ℤ pos (entry_no * 32)) in
    let (plain', p₁, h₁) = >>=-eq-ok (unhex (hexlify plain)) _ h in
    let (tweak, p₂, h₂) = >>=-eq-ok (unhex hex_tweak) _ h₁ in
    let same : plain ≡ plain' = ok-injective (sym (unhex-hexlify plain p_bytes) ∙ p₁) in
    let found = laws.decryptor-encryptor key tweak plain' (or_raise-eq-ok _ value_error h₂) in
    rw (unhex-hexlify c c_bytes, p₂, found) (ap ok (sym same))
