-- ===== src/Keys/File.antt =====
-- The key file that `generate_key` writes.
use pedge.Prelude.{
  All, All-append, All, ◌<◌, ◌≡◌, ◌∙◌, sym, ap, arith, [], ◌++◌, Bool, true, false, some, length,
  take, length-append, if◌then◌else◌,
}
use mathlib.Core.Path.{subst}
use pedge.Exceptions.{Result, ok, ok-injective}
use pedge.Python.Bytes.{
  Bytes, Str, slice, set_slice, erased, length-erased, length-set_slice, slice-set_slice,
}
use pedge.Python.Slices.{slice-set_slice_before}
use pedge.Python.Hex.{hexlify, unhex}
use pedge.Python.Struct.{le_bytes, from_le, length-le_bytes, from_le-le_bytes, pack_into-ok}
use pedge.Page.{checksum}
use pedge.Page.Init.{checksum-lt}
use pedge.Page.Crypt.{encr_key_input}
use pedge.Python.Hex.Laws.{length-unhex, unhex-hexlify}
use pedge.State.{codes}
use pedge.Python.Path.{join}
use pedge.Disk.{Disk, IsDisk, DiskAction, ◌>>=◌, ◌>>◌, pure, lift, change, >>=-eq-ok, ensure_dir}
use pedge.Keys.{
  KeyArgs, Draws, key_buffer, key_name, hmac_key, new_key, generate_key, set_target_filepath,
  ekey_seed, tkey_seed,
}

-- A key file for the key: 4096 bytes, which begin with the key and its checksum.
pub record IsKeyFile (key_bytes file : Bytes) : Type 0 where
  pub length_file : length file ≡ 4096
  pub key : take 64 file ≡ key_bytes
  pub sum : from_le (slice 64 68 file) ≡ checksum key_bytes

key_buffer-IsKeyFile :
    (key_bytes : Bytes)
    → length key_bytes ≡ 64
    → (file : Bytes) × (key_buffer key_bytes ≡ ok file) × IsKeyFile key_bytes file
unfolding key_buffer
key_buffer-IsKeyFile key_bytes len =
    let start = set_slice (erased 4096) 0 64 key_bytes in
    let len_start : length start ≡ 4096 =
      length-set_slice (erased 4096) 0 64 key_bytes (omega arith)
        (omega (arith, length-erased 4096)) (omega (arith, len))
      ∙ length-erased 4096 in
    let stored : slice 0 64 start ≡ key_bytes =
      slice-set_slice (erased 4096) 0 64 key_bytes (omega (arith, len)) (omega arith) in
    let sum = checksum key_bytes in
    let file = set_slice start 64 68 (le_bytes 4 sum) in
    (
      file,
      rw (len, stored) (pack_into-ok 4 start 64 sum (checksum-lt key_bytes) (omega arith)),
      record {
        length_file =
            length-set_slice start 64 68 (le_bytes 4 sum) (omega arith) (omega arith)
              (omega (arith, length-le_bytes 4 sum))
            ∙ len_start;
        key =
            slice-set_slice_before start 0 64 64 68 (le_bytes 4 sum) (omega arith) (omega arith)
              (omega (arith, length-le_bytes 4 sum)) (omega arith)
            ∙ stored;
        sum =
            ap from_le (
              slice-set_slice start 64 68 (le_bytes 4 sum) (omega (arith, length-le_bytes 4 sum))
                (omega arith))
            ∙ from_le-le_bytes 4 sum (checksum-lt key_bytes);
      },
    )

-- HMAC-SHA256 gives 32 bytes.
pub record IsHmac (hmac : Bytes → Bytes → Bytes) : Type 0 where
  pub length-hmac : (key message : Bytes) → length (hmac key message) ≡ 32
  pub bytes-hmac : (key message : Bytes) → All (λ b. b < 256) (hmac key message)

-- A key in hex, and its 64 bytes.
abbrev IsKey : Str × Bytes → Type 0
IsKey (key, key_bytes) = (unhex key ≡ ok key_bytes) × (length key_bytes ≡ 64)

-- Both forms of a key are read as the same bytes.
encr_key_input-IsKey :
    (key : Str) (key_bytes : Bytes)
    → IsKey (key, key_bytes)
    → (encr_key_input (some key) ≡ ok key_bytes) × (encr_key_input (some key_bytes) ≡ ok key_bytes)
unfolding encr_key_input
encr_key_input-IsKey key key_bytes k =
    let len = length-unhex key k.0 in (ground (arith, k.0, k.1, len), ground (arith, k.1))

module _ {D : Type 0} (disk : Disk D) (hmac : Bytes → Bytes → Bytes) (args : KeyArgs)
    (draws : Draws) (laws : IsDisk disk) (sha : IsHmac hmac)
    (drawn : length draws.key_digits ≡ 128) where
  new_key-IsKey :
      (dir : Str) (d : D) {k : Str × Bytes} {d' : D}
      → new_key disk hmac args draws dir d ≡ (ok k, d')
      → IsKey k
  unfolding new_key
  new_key-IsKey dir d {k} {d'} h = split args.key_protect_hmac h
    where
      split :
          (b : Bool)
          → (if b
                then (hmac_key disk hmac args draws dir >>= λ key.
                    let encr_key_bytes = hmac key ekey_seed ++ hmac key tkey_seed in
                    pure (hexlify encr_key_bytes, encr_key_bytes))
                else (lift (unhex draws.key_digits) >>= λ encr_key_bytes.
                    pure (draws.key_digits, encr_key_bytes)))
              d
            ≡ (ok k, d')
          → IsKey k
      split true h =
          let (key, after, p, q) =
            >>=-eq-ok (hmac_key disk hmac args draws dir)
              (λ key.
                let both = hmac key ekey_seed ++ hmac key tkey_seed in pure (hexlify both, both))
              d h in
          let e = hmac key ekey_seed in
          let t = hmac key tkey_seed in
          subst IsKey (ok-injective (ap (λ (r : Result (Str × Bytes) × D). r.0) q)) (
            unhex-hexlify (e ++ t)
                (All-append _ e t (sha.bytes-hmac key ekey_seed) (sha.bytes-hmac key tkey_seed)),
            omega (
              arith,
              length-append e t,
              sha.length-hmac key ekey_seed,
              sha.length-hmac key tkey_seed,
            ),
          )
      split false h =
          let (bytes, after, p, q) =
            >>=-eq-ok (lift (unhex draws.key_digits)) (λ bs. pure (draws.key_digits, bs)) d h in
          let decoded = ap (λ (r : Result Bytes × D). r.0) p in
          subst IsKey (ok-injective (ap (λ (r : Result (Str × Bytes) × D). r.0) q))
            (decoded, omega (arith, length-unhex draws.key_digits decoded, drawn))

  stored : Str → Str × Bytes → Bytes → DiskAction D Str
  stored path k keys_buf = change (disk.write_file path keys_buf) >> pure k.0

  stored-IsKeyFile :
      (path : Str) (k : Str × Bytes) (d : D) {key : Str} {d' : D}
      → IsKey k
      → (lift (key_buffer k.1) >>= stored path k) d ≡ (ok key, d')
      → (path : Str) × (file : Bytes) × (key_bytes : Bytes) × (disk.read_file d' path ≡ some file)
        × IsKeyFile key_bytes file
        × (encr_key_input (some key) ≡ ok key_bytes)
        × (encr_key_input (some (take 64 file)) ≡ ok key_bytes)
  unfolding stored
  stored-IsKeyFile path k d {key} {d'} is_key h =
      let (file, made, is_file) = key_buffer-IsKeyFile k.1 is_key.1 in
      let written : ◌≡◌ {A = Result Str × D} (ok k.0, disk.write_file path file d) (ok key, d') =
        rw made at h in
      let same : k.0 ≡ key = ok-injective (ap (λ (r : Result Str × D). r.0) written) in
      let after : disk.write_file path file d ≡ d' = ap (λ (r : Result Str × D). r.1) written in
      let (in_hex, raw) = encr_key_input-IsKey k.0 k.1 is_key in
      (
        path,
        file,
        k.1,
        subst (λ (e : D). disk.read_file e path ≡ some file) after
            (laws.read_file-write_file path file d),
        is_file,
        subst (λ (t : Str). encr_key_input (some t) ≡ ok k.1) same in_hex,
        subst (λ (bs : Bytes). encr_key_input (some bs) ≡ ok k.1) (sym is_file.key) raw,
      )

  -- If `generate_key` returns a key, a file was written that begins with the key's 64 bytes and
  -- their checksum, and an encryption reads the returned key and the key in the file alike, if a disk
  -- gives back what was written, HMAC gives 32 bytes, and 128 digits are drawn.
  pub generate_key-IsKeyFile :
      (d : D) {key : Str} {d' : D}
      → generate_key disk hmac args draws d ≡ (ok key, d')
      → (path : Str) × (file : Bytes) × (key_bytes : Bytes) × (disk.read_file d' path ≡ some file)
        × IsKeyFile key_bytes file
        × (encr_key_input (some key) ≡ ok key_bytes)
        × (encr_key_input (some (take 64 file)) ≡ ok key_bytes)
  unfolding generate_key stored
  generate_key-IsKeyFile d h =
      let keys_dir = join (join args.outdir (codes "keys")) [] in
      let keep : Str → Str × Bytes → DiskAction D Str =
        λ path k. lift (key_buffer k.1) >>= stored path k in
      let d₁ = (ensure_dir disk keys_dir d).1 in
      let (target, d₂, p₂, h₂) =
        >>=-eq-ok (set_target_filepath disk keys_dir (key_name args draws))
          (λ target. new_key disk hmac args draws target.0 >>= keep target.1) d₁ h in
      let (k, d₃, p₃, h₃) =
        >>=-eq-ok (new_key disk hmac args draws target.0) (keep target.1) d₂ h₂ in
      stored-IsKeyFile target.1 k d₃ (new_key-IsKey target.0 d₂ p₃) h₃
