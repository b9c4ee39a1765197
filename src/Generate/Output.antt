-- ===== src/Generate/Output.antt =====
-- `generate` of services/esp32-config-builder/nvs_partition_gen.py with its files: the input that it
-- reads, the key file that it may write, and the output that it writes or removes.
pub mod Outcome
pub mod Run
pub mod Encrypt
use pedge.Prelude.{
  ℕ, List, [], Bool, true, false, ◌&&◌, ◌||◌, not, Option, none, some, ℤ, if◌then◌else◌,
}
use pedge.Exceptions
use pedge.Exceptions.{Result, ok, err, or_raise, guard, os_error, system_exit, failure, minus_two}
use pedge.Python.Bytes.{Bytes, Str}
use pedge.Python.Path.{split_dir, is_empty}
use pedge.Python.Utf8.{decode}
use pedge.Cipher.{XtsAes}
use pedge.Nvs.{nvs_open}
use pedge.Entries.{Files}
use pedge.Generate.{check_size, is_bin_path, page_version, write_partition, input_key}
use pedge.Csv.{read_input}
use pedge.Disk.{Disk, DiskAction, ◌>>=◌, ◌>>◌, pure, lift, change}
use pedge.Keys.{KeyArgs, Draws, set_target_filepath, generate_key}

-- The options of `generate`; those of key generation hold the output directory too.
pub record Args : Type 0 where
  pub size : Str
  pub input : Str
  pub output : Str
  pub version : ℕ
  pub key_args : KeyArgs

-- `if is_encr_enabled and not encr_key: encr_key = generate_key(args)`.
unfoldable pub made_key :
    {D : Type 0} → Bool → Option Bytes → DiskAction D Str → DiskAction D (Option Bytes)
made_key true none generated = generated >>= λ key. pure (some key)
made_key true (some []) generated = generated >>= λ key. pure (some key)
made_key _ encr_key generated = pure encr_key

module _ {D : Type 0} (disk : Disk D) (xts : XtsAes) (cwd : Str) (args : Args) where
  -- The files that rows name, as they are while the output is open.
  abbrev pub files_at : D → Files
  files_at d = record { cwd = cwd; read = disk.read_file d }

  -- The body of the `with` statement: what the closing of the object writes.
  unfoldable pub image_of : ℤ → Bool → Option Bytes → D → Result Bytes
  image_of input_size is_encr_enabled encr_key d =
      Exceptions.◌>>=◌ (nvs_open input_size (page_version args.version) is_encr_enabled encr_key)
        λ nvs. Exceptions.◌>>=◌ (or_raise (disk.read_file d args.input) os_error) λ contents.
          Exceptions.◌>>=◌ (decode contents) λ text.
            Exceptions.◌>>=◌ (read_input text) λ rows. write_partition xts (files_at d) rows nvs

  -- `os.remove(args.output)`, for a path with a file name.
  unfoldable pub remove_output : Str → D → D
  remove_output output d =
      let (filedir, filename) = split_dir output in
      if is_empty filename then d else disk.remove_file output d

  -- What becomes of the output: the image, nothing after an InputError, an empty file after another
  -- exception.
  unfoldable pub close_output : Str → Result Bytes → DiskAction D (Unit {0})
  unfolding remove_output
  close_output output (ok image) d = (ok tt, disk.write_file output image d)
  close_output output (err (system_exit minus_two)) d =
      (err (system_exit minus_two), remove_output output d)
  close_output output (err e) d = (err e, d)

  -- The `with` statement: both files are opened, the output for writing.
  unfoldable pub write_output : ℤ → Str → Bool → Option Bytes → DiskAction D (Unit {0})
  unfolding image_of close_output
  write_output input_size output is_encr_enabled encr_key =
      (λ d. (or_raise (disk.read_file d args.input) os_error, d)) >>= λ opened.
      (change (disk.write_file output []) >> λ d.
      close_output output (image_of input_size is_encr_enabled encr_key d) d)

  -- `generate`, from the options on.
  unfoldable pub generate_file :
      (Bytes → Bytes → Bytes) → Draws → Bool → Option Bytes → DiskAction D (Unit {0})
  unfolding made_key write_output
  generate_file hmac draws is_encr_enabled encr_key = do
    input_size ← lift (check_size args.size)
    lift (guard (is_bin_path args.output) (system_exit failure))
    (outdir, output) ← set_target_filepath disk args.key_args.outdir args.output
    key ←
        made_key is_encr_enabled encr_key
          (generate_key disk hmac (record args.key_args { outdir = outdir }) draws)
    write_output input_size output is_encr_enabled key

  -- `encrypt`, from the options on; an option that is not given is an empty text.
  unfoldable pub encrypt_file :
      (Bytes → Bytes → Bytes) → Draws → Bool → Str → DiskAction D (Unit {0})
  unfolding generate_file
  encrypt_file hmac draws keygen inputkey = do
    usable ← lift (check_size args.size)
    lift (guard (keygen || not (is_empty inputkey)) (system_exit failure))
    lift (guard (not (keygen && not (is_empty inputkey))) (system_exit failure))
    key ← λ d. (input_key (files_at d) inputkey, d)
    generate_file hmac draws true key
