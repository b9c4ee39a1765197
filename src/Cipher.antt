-- ===== src/Cipher.antt =====
-- The AES-XTS cipher of the third-party package `cryptography`, which the tool only calls.
use pedge.Prelude.{◌≡◌, Option, some, length}
use pedge.Python.Bytes.{Bytes}

-- `Cipher(algorithms.AES(key), modes.XTS(tweak)).encryptor().update(data)` and its `decryptor()`
-- twin, by key, tweak and data; `none` is a ValueError, as on a key of another size.
pub record XtsAes : Type 0 where
  pub encryptor : Bytes → Bytes → Bytes → Option Bytes
  pub decryptor : Bytes → Bytes → Bytes → Option Bytes

-- The package documents XTS as a length-preserving mode that decrypts what it encrypted under the
-- same key and tweak.
pub record IsXtsAes (x : XtsAes) : Type 0 where
  pub length-encryptor :
      (key tweak plain : Bytes) {c : Bytes}
      → x.encryptor key tweak plain ≡ some c
      → length c ≡ length plain
  pub length-decryptor :
      (key tweak cipher : Bytes) {p : Bytes}
      → x.decryptor key tweak cipher ≡ some p
      → length p ≡ length cipher
  pub decryptor-encryptor :
      (key tweak plain : Bytes) {c : Bytes}
      → x.encryptor key tweak plain ≡ some c
      → x.decryptor key tweak c ≡ some plain
