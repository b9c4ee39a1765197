-- ===== src/Generate/Encrypt.antt =====
-- `encrypt`: its options, and its image.
use pedge.Prelude.{
  ℕ, ◌-◌, ◌≡◌, ◌≢◌, ◌⊎◌, inl, inr, refl, List, [], ◌∷◌, Bool, true, false, ◌&&◌, ◌||◌, not, Option,
  some, pos, length, take,
}
use pedge.Exceptions.{Result, ok, guard, system_exit, failure, >>=-eq-ok, guard-eq-ok}
use pedge.Python.Bytes.{Bytes, Str}
use pedge.Python.Path.{is_empty}
use pedge.Cipher.{XtsAes}
use pedge.Entries.{Files}
use pedge.State.{Nvs}
use pedge.Nvs.{nvs_open}
use pedge.Generate.{Row, input_key, is_bin_path, page_version, write_partition}

-- How the key may be given: generated, or in a file with the extension.
abbrev pub OneKey : Bool → Str → Type 0
OneKey keygen inputkey =
    ((keygen ≡ true) × (inputkey ≡ [])) ⊎ ((keygen ≡ false) × (is_bin_path inputkey ≡ true))

pub one_key :
    (files : Files) (keygen : Bool) (inputkey : Str) {key : Option Bytes}
    → (keygen || not (is_empty inputkey)) ≡ true
    → not (keygen && not (is_empty inputkey)) ≡ true
    → input_key files inputkey ≡ ok key
    → OneKey keygen inputkey
unfolding input_key is_empty
one_key files true [] some_key not_both read = inl (refl, refl)
one_key files true (c ∷ path) some_key not_both read = cc
one_key files false [] some_key not_both read = cc
one_key files false (c ∷ path) some_key not_both read =
    let (u, named, rest) =
      >>=-eq-ok (guard (is_bin_path (c ∷ path)) (system_exit failure)) _ read in
    inr (refl, guard-eq-ok _ _ named)

-- The key that an encryption is under: the first 64 bytes of the file of `--inputkey`, or one that
-- `generate_key` made, for `--keygen` and also where that file is empty.
pub data KeyOf (files : Files) (generate_key : Result Bytes) (keygen : Bool) (inputkey : Str)
    (key : Bytes) : Type 0 where
  key_made :
      keygen ≡ true
      → inputkey ≡ []
      → generate_key ≡ ok key
      → KeyOf files generate_key keygen inputkey key
  key_read :
      (contents : Bytes)
      → keygen ≡ false
      → is_bin_path inputkey ≡ true
      → files.read inputkey ≡ some contents
      → key ≡ take 64 contents
      → key ≢ []
      → KeyOf files generate_key keygen inputkey key
  key_made_for_empty :
      keygen ≡ false
      → is_bin_path inputkey ≡ true
      → files.read inputkey ≡ some []
      → generate_key ≡ ok key
      → KeyOf files generate_key keygen inputkey key

-- An image of rows that were written to a new object of the size, with encryption under a key.
pub record EncryptedUnder (xts : XtsAes) (files : Files) (bytes version : ℕ) (rows : List Row)
    (key image : Bytes) : Type 0 where
  pub nvs : Nvs
  pub opening : nvs_open (pos (bytes - 4096)) (page_version version) true (some key) ≡ ok nvs
  pub writing : write_partition xts files rows nvs ≡ ok image
  pub length_image : length image ≡ bytes
