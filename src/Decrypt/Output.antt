-- ===== src/Decrypt/Output.antt =====
-- `decrypt` of services/esp32-config-builder/nvs_partition_gen.py with its files: the key file and the
-- input that it reads, and the output that it writes.
use pedge.Prelude.{◌≡◌, ap, [], some, take, length}
use mathlib.Core.Path.{subst}
use pedge.Exceptions.{Result, ok, or_raise, or_raise-eq-ok, os_error, guard, system_exit, failure}
use pedge.Python.Bytes.{Bytes, Str}
use pedge.Cipher.{XtsAes}
use pedge.Generate.{is_bin_path}
use pedge.Disk.{Disk, IsDisk, DiskAction, ◌>>=◌, ◌>>◌, lift, change, >>=-eq-ok, lift->>=-eq-ok}
use pedge.Keys.{set_target_filepath}
use pedge.Decrypt.{start, read_entries, decrypt_entries, decrypt}

-- `decrypt` once the paths are checked.
decrypt_by :
    (xts : XtsAes) (input key output : Str) (key_file image plain : Bytes)
    → guard (is_bin_path input) (system_exit failure) ≡ ok tt
    → guard (is_bin_path key) (system_exit failure) ≡ ok tt
    → guard (is_bin_path output) (system_exit failure) ≡ ok tt
    → decrypt_entries xts (take 64 key_file) (read_entries (length image) image) start ≡ ok plain
    → decrypt xts input key output key_file image ≡ ok plain
unfolding decrypt
decrypt_by xts input key output key_file image plain h₁ h₂ h₃ h = rw (h₁, h₂, h₃) h

module _ {D : Type 0} (disk : Disk D) where
  -- A file opened, or its contents read.
  abbrev pub contents_of : Str → DiskAction D Bytes
  contents_of path d = (or_raise (disk.read_file d path) os_error, d)

  -- What follows once the paths are checked and the output is open.
  unfoldable pub decrypt_open : XtsAes → Str → Str → Bytes → DiskAction D (Unit {0})
  decrypt_open xts input output key_file = do
    change (disk.write_file output [])
    image ← contents_of input
    output_buf ←
        lift (decrypt_entries xts (take 64 key_file) (read_entries (length image) image) start)
    change (disk.write_file output output_buf)

  -- `decrypt`, from the options on.
  unfoldable pub decrypt_file : XtsAes → Str → Str → Str → Str → DiskAction D (Unit {0})
  unfolding decrypt_open
  decrypt_file xts outdir input key output = do
    lift (guard (is_bin_path input) (system_exit failure))
    lift (guard (is_bin_path key) (system_exit failure))
    lift (guard (is_bin_path output) (system_exit failure))
    key_file ← contents_of key
    target ← set_target_filepath disk outdir output
    opened ← contents_of input
    decrypt_open xts input target.1 key_file

  -- What `decrypt` has read, and what it has written to the path of the output.
  pub record Decrypted (xts : XtsAes) (outdir input key output : Str) (before after : D)
      : Type 0 where
    pub key_file : Bytes
    pub target : Str × Str
    pub made : D
    pub image : Bytes
    pub plain : Bytes
    pub read_key : disk.read_file before key ≡ some key_file
    pub found : set_target_filepath disk outdir output before ≡ (ok target, made)
    pub read : disk.read_file (disk.write_file target.1 [] made) input ≡ some image
    pub decrypted : decrypt xts input key output key_file image ≡ ok plain
    pub written : disk.read_file after target.1 ≡ some plain

  -- A decryption that returns has written to the output what `decrypt` makes of the key file and of
  -- the input, as this is once the output is open, on a disk that gives back what was written.
  pub decrypt_file-Decrypted :
      (xts : XtsAes) (outdir input key output : Str) (d : D) {d' : D}
      → IsDisk disk
      → decrypt_file xts outdir input key output d ≡ (ok tt, d')
      → Decrypted xts outdir input key output d d'
  unfolding decrypt_file decrypt_open
  decrypt_file-Decrypted xts outdir input key output d {d'} laws h =
      let bin = λ (path : Str). guard (is_bin_path path) (system_exit failure) in
      let finish = λ (key_file : Bytes) (target : Str × Str).
        contents_of input >>= λ opened. decrypt_open xts input target.1 key_file in
      let keyed = contents_of key >>= λ key_file.
      set_target_filepath disk outdir output >>= finish key_file in
      let (u, p₁, h₁) =
        lift->>=-eq-ok (bin input) (λ u. lift (bin key) >>= λ v. lift (bin output) >>= λ w. keyed) d
          h in
      let (v, p₂, h₂) = lift->>=-eq-ok (bin key) (λ v. lift (bin output) >>= λ w. keyed) d h₁ in
      let (w, p₃, h₃) = lift->>=-eq-ok (bin output) (λ w. keyed) d h₂ in
      let (key_file, p₄, h₄) =
        lift->>=-eq-ok (or_raise (disk.read_file d key) os_error)
          (λ key_file. set_target_filepath disk outdir output >>= finish key_file) d h₃ in
      let (target, made, p₅, h₅) =
        >>=-eq-ok (set_target_filepath disk outdir output) (finish key_file) d h₄ in
      let (o, p₆, h₆) =
        lift->>=-eq-ok (or_raise (disk.read_file made input) os_error)
          (λ opened. decrypt_open xts input target.1 key_file) made h₅ in
      let emptied = disk.write_file target.1 [] made in
      let store = λ (output_buf : Bytes). change (disk.write_file target.1 output_buf) in
      let entries = λ (image : Bytes).
        decrypt_entries xts (take 64 key_file) (read_entries (length image) image) start in
      let (image, p₇, h₇) =
        lift->>=-eq-ok (or_raise (disk.read_file emptied input) os_error)
          (λ image. lift (entries image) >>= store) emptied h₆ in
      let (plain, p₈, h₈) = lift->>=-eq-ok (entries image) store emptied h₇ in
      record {
        key_file = key_file;
        target = target;
        made = made;
        image = image;
        plain = plain;
        read_key = or_raise-eq-ok (disk.read_file d key) os_error p₄;
        found = p₅;
        read = or_raise-eq-ok (disk.read_file emptied input) os_error p₇;
        decrypted = decrypt_by xts input key output key_file image plain p₁ p₂ p₃ p₈;
        written =
            subst (λ (e : D). disk.read_file e target.1 ≡ some plain)
              (ap (λ (r : Result (Unit {0}) × D). r.1) h₈)
              (laws.read_file-write_file target.1 plain emptied);
      }
