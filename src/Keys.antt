-- ===== src/Keys.antt =====
-- `set_target_filepath` and `generate_key` of services/esp32-config-builder/nvs_partition_gen.py:
-- where output files go, and the key file of an encrypted partition.
pub mod File
use pedge.Prelude.{
  ℕ, zero, suc, ◌+◌, ◌*◌, List, [], ◌∷◌, ◌++◌, Bool, not, Option, pos, length, if◌then◌else◌,
}
use pedge.Exceptions
use pedge.Exceptions.{Result, ok, err, or_raise, system_exit, failure, runtime_error, os_error}
use pedge.Python.Bytes.{Bytes, Str, slice, set_slice, erased}
use pedge.Python.Hex.{hexlify, unhex}
use pedge.Python.Path.{isabs, join, split_dir, splitext, contains, is_empty, dirname}
use pedge.Python.Struct.{unsigned, pack_into}
use pedge.State.{codes}
use pedge.Page.{checksum}
use pedge.Disk.{Disk, DiskAction, ◌>>=◌, ◌>>◌, pure, lift, change, ensure_dir}

-- The name with the extension that `set_target_filepath` gives it; another extension ends the
-- program.
unfoldable pub with_bin_ext : Str → Result Str
with_bin_ext [] = ok []
with_bin_ext (c ∷ s) =
    let (key_file_name, ext) = splitext (c ∷ s) in
    if is_empty ext
    then ok (key_file_name ++ codes ".bin")
    else if contains (codes ".bin") ext
    then ok (c ∷ s)
    else err (system_exit failure)

module _ {D : Type 0} (disk : Disk D) where
  -- `set_target_filepath`.
  unfoldable pub set_target_filepath : Str → Str → DiskAction D (Str × Str)
  unfolding with_bin_ext
  set_target_filepath outdir filepath = do
    let expanded = disk.expanduser outdir
    named ← lift (with_bin_ext filepath)
    ensure_dir disk expanded
    let filedir = join (join expanded (dirname named)) []
    (if is_empty filedir then pure tt else ensure_dir disk filedir)
    let kept : Str = if isabs named then [] else expanded
    pure (kept, join kept [] ++ named)

-- The options of key generation; one that is not given is an empty text.
pub record KeyArgs : Type 0 where
  pub outdir : Str
  pub keyfile : Str
  pub key_protect_hmac : Bool
  pub kp_hmac_keygen : Bool
  pub kp_hmac_keyfile : Str
  pub kp_hmac_inputkey : Str

-- What is drawn at a run: the time, and the digits that `random.choice` gives for the two keys.
pub record Draws : Type 0 where
  pub timestamp : Str
  pub hmac_digits : Str
  pub key_digits : Str

-- The buffer of 4096 bytes that holds a key and, after it, its checksum.
unfoldable pub key_buffer : Bytes → Result Bytes
key_buffer encr_key_bytes =
    let key_len = length encr_key_bytes in
    let keys_buf = set_slice (erased 4096) 0 key_len encr_key_bytes in
    pack_into (unsigned 4) keys_buf key_len (pos (checksum (slice 0 key_len keys_buf)))

abbrev pub repeated : ℕ → Bytes → Bytes
repeated zero bs = []
repeated (suc n) bs = bs ++ repeated n bs

abbrev pub ekey_seed : Bytes
ekey_seed = repeated 8 (0x5A ∷ 0x5A ∷ 0xBE ∷ 0xAE ∷ [])

abbrev pub tkey_seed : Bytes
tkey_seed = repeated 8 (0xA5 ∷ 0xA5 ∷ 0xDE ∷ 0xCE ∷ [])

-- The name of the key file, if none is given by the time.
unfoldable pub key_name : KeyArgs → Draws → Str
key_name args draws =
    if is_empty args.keyfile
    then codes "keys-" ++ (draws.timestamp ++ codes ".bin")
    else args.keyfile

-- `hmac` is HMAC-SHA256 of the package cryptography, by key and message.
module _ {D : Type 0} (disk : Disk D) (hmac : Bytes → Bytes → Bytes) (args : KeyArgs)
    (draws : Draws) where
  -- The HMAC key: drawn and stored in a file of its own, or read from the file that is given.
  unfoldable pub hmac_key : Str → DiskAction D Bytes
  unfolding set_target_filepath key_name
  hmac_key keys_outdir =
      if args.kp_hmac_keygen
      then (lift (unhex draws.hmac_digits) >>= λ key.
          let hmac_keyfile =
            if is_empty args.kp_hmac_keyfile
            then codes "hmac-" ++ key_name args draws
            else args.kp_hmac_keyfile in
          (set_target_filepath disk keys_outdir hmac_keyfile >>= λ target.
          (change (disk.write_file target.1 key) >> pure key)))
      else if is_empty args.kp_hmac_inputkey
      then lift (err runtime_error)
      else λ d. (or_raise (disk.read_file d args.kp_hmac_inputkey) os_error, d)

  -- The key in hex and its bytes.
  unfoldable pub new_key : Str → DiskAction D (Str × Bytes)
  unfolding hmac_key
  new_key keys_outdir =
      if args.key_protect_hmac
      then (hmac_key keys_outdir >>= λ key.
          let encr_key_bytes = hmac key ekey_seed ++ hmac key tkey_seed in
          pure (hexlify encr_key_bytes, encr_key_bytes))
      else (lift (unhex draws.key_digits) >>= λ encr_key_bytes.
          pure (draws.key_digits, encr_key_bytes))

  -- `generate_key`: the key in hex, once the key file is written.
  unfoldable pub generate_key : DiskAction D Str
  unfolding new_key key_buffer key_name
  generate_key = do
    let keys_dir = join (join args.outdir (codes "keys")) []
    ensure_dir disk keys_dir
    (keys_outdir, output_keyfile) ← set_target_filepath disk keys_dir (key_name args draws)
    (key, encr_key_bytes) ← new_key keys_outdir
    keys_buf ← lift (key_buffer encr_key_bytes)
    change (disk.write_file output_keyfile keys_buf)
    pure key
