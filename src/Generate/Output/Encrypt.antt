-- ===== src/Generate/Output/Encrypt.antt =====
-- `encrypt` with its files.
use pedge.Prelude.{◌≡◌, Bool, true, ◌&&◌, ◌||◌, not, Option}
use pedge.Exceptions.{ok, guard, guard-eq-ok, system_exit, failure}
use pedge.Python.Bytes.{Bytes, Str}
use pedge.Python.Path.{is_empty}
use pedge.Cipher.{XtsAes}
use pedge.Generate.{check_size, input_key}
use pedge.Generate.Encrypt.{OneKey, one_key}
use pedge.Disk.{Disk, IsDisk, DiskAction, ◌>>=◌, lift, lift->>=-eq-ok}
use pedge.Keys.{Draws}
use pedge.Generate.Output.{Args, files_at, generate_file, encrypt_file}
use pedge.Generate.Output.Run.{Ran, generate_file-Ran}

-- An encryption that returns took its key in just one of the two ways, and has run `generate` with
-- encryption and the key of `--inputkey`, if any, on a disk that gives back what was written.
pub encrypt_file-Ran :
    {D : Type 0} (disk : Disk D) (xts : XtsAes) (cwd : Str) (args : Args)
    (hmac : Bytes → Bytes → Bytes) (draws : Draws) (keygen : Bool) (inputkey : Str) (d : D) {d' : D}
    → IsDisk disk
    → encrypt_file disk xts cwd args hmac draws keygen inputkey d ≡ (ok tt, d')
    → OneKey keygen inputkey
      × ((key : Option Bytes) × (input_key (files_at disk xts cwd args d) inputkey ≡ ok key)
          × Ran disk xts cwd args hmac draws true key d d')
unfolding encrypt_file
encrypt_file-Ran {D} disk xts cwd args hmac draws keygen inputkey d {d'} laws h =
    let run = λ (key : Option Bytes). generate_file disk xts cwd args hmac draws true key in
    let with_key : DiskAction D (Unit {0}) =
      (λ d. (input_key (files_at disk xts cwd args d) inputkey, d)) >>= run in
    let one = guard (not (keygen && not (is_empty inputkey))) (system_exit failure) in
    let some_way = guard (keygen || not (is_empty inputkey)) (system_exit failure) in
    let (n, p₁, h₁) =
      lift->>=-eq-ok (check_size args.size) (λ n. lift some_way >>= λ u. lift one >>= λ v. with_key)
        d h in
    let (u, p₂, h₂) = lift->>=-eq-ok some_way (λ u. lift one >>= λ v. with_key) d h₁ in
    let (v, p₃, h₃) = lift->>=-eq-ok one (λ v. with_key) d h₂ in
    let (key, p₄, h₄) =
      lift->>=-eq-ok (input_key (files_at disk xts cwd args d) inputkey) run d h₃ in
    (
      one_key (files_at disk xts cwd args d) keygen inputkey (guard-eq-ok _ _ p₂)
          (guard-eq-ok _ _ p₃) p₄,
      (key, p₄, generate_file-Ran disk xts cwd args hmac draws true key d laws h₄),
    )
