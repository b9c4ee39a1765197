-- ===== src/Generate.antt =====
-- `check_size` and `generate` of services/esp32-config-builder/nvs_partition_gen.py: from the rows
-- of the CSV file to the bytes of the partition.
pub mod Rows
pub mod Size
pub mod Image
pub mod Encrypt
pub mod Headers
pub mod Accepted
pub mod Output
use pedge.Prelude.{
  true, none, some, ◌&&◌, ◌||◌, take, ℕ, ◌+◌, ◌-◌, ◌%◌, ◌*◌, List, [], ◌∷◌, Bool, not, ltb, ◌==◌,
  Option, ℤ, pos, negsuc, pos_part, neg_part, ◌-ℤ◌, length, if◌then◌else◌,
}
use pedge.Exceptions.{
  Result, ok, err, or_raise, guard, type_error, input_error, key_too_long, system_exit, success,
  failure, minus_two, os_error, ◌>>=◌, ◌>>◌,
}
use pedge.Python.Bytes.{Bytes, Str}
use pedge.Python.Number.{int_base0}
use pedge.Python.Path.{splitext, contains, is_empty}
use pedge.Cipher.{XtsAes}
use pedge.State.{Nvs, version1, version2, max_size, codes}
use pedge.Nvs.{nvs_open, nvs_close}
use pedge.Nvs.Monad
use pedge.Nvs.Monad.{Action}
use pedge.Entries.{Files, write_row_entry}

-- Python's `n % m` for a positive `m`.
unfoldable pub mod_ℤ : ℤ → ℕ → ℕ
mod_ℤ (pos n) m = n % m
mod_ℤ (negsuc n) m = m - 1 - n % m

unfoldable pub ltb_ℤ : ℤ → ℤ → Bool
ltb_ℤ a b = ltb (pos_part a + neg_part b) (pos_part b + neg_part a)

-- The tests of `check_size` on the number, and the size without the reserved page.
unfoldable pub check_number : ℤ → Result ℤ
unfolding mod_ℤ ltb_ℤ
check_number input_size = do
  guard (mod_ℤ input_size 4096 == 0) (system_exit failure)
  let usable = input_size -ℤ pos max_size
  guard (not (ltb_ℤ usable (pos (2 * max_size)))) (system_exit failure)
  ok usable

-- `check_size`. A text that is no number ends the program with status 0, a wrong size with a
-- message.
unfoldable pub check_size : Str → Result ℤ
unfolding check_number
check_size size = do
  input_size ← or_raise (int_base0 size) (system_exit success)
  check_number input_size

-- `csv.DictReader` gives None for a field that the row lacks.
pub record Row : Type 0 where
  pub key : Option Str
  pub datatype : Option Str
  pub encoding : Option Str
  pub value : Option Str

-- The handler of InputError: the output file is removed, and the program exits.
unfoldable pub exit_if_input_error : Result (Unit {0}) → Result (Unit {0})
exit_if_input_error (err (input_error c)) = err (system_exit minus_two)
exit_if_input_error r = r

unfoldable pub exit_on_input_error : Action (Unit {0}) → Action (Unit {0})
unfolding exit_if_input_error
exit_on_input_error m nvs = let (done, nvs') = m nvs in (exit_if_input_error done, nvs')

module _ (xts : XtsAes) (files : Files) where
  -- The body of the loop over the rows, inside its `try`.
  unfoldable pub write_row : Row → Action (Unit {0})
  write_row row = Monad.◌>>=◌ (Monad.lift (or_raise row.key type_error)) λ key.
      Monad.◌>>◌ (Monad.raise_if (ltb 15 (length key)) (input_error key_too_long))
        (write_row_entry xts files key row.datatype row.encoding row.value)

  unfoldable pub write_rows : List Row → Action (Unit {0})
  unfolding exit_on_input_error
  write_rows [] = Monad.pure tt
  write_rows (row ∷ rows) = Monad.◌>>◌ (exit_on_input_error (write_row row)) (write_rows rows)

-- `args.version`, of the command line, to that of the page header.
unfoldable pub page_version : ℕ → ℕ
page_version v = if v == 1 then version1 else if v == 2 then version2 else v

-- `bin_ext in ext` for the extension of a path.
unfoldable pub is_bin_path : Str → Bool
is_bin_path path = contains (codes ".bin") (splitext path).1

-- The rows written to the open object, and the object closed: what the output file receives.
unfoldable pub write_partition : XtsAes → Files → List Row → Nvs → Result Bytes
unfolding write_rows
write_partition xts files rows nvs = (Monad.◌>>◌ (write_rows xts files rows) nvs_close nvs).0

-- `if is_encr_enabled and not encr_key: encr_key = generate_key(args)`: an empty key is none.
unfoldable pub encryption_key : Bool → Option Bytes → Result Bytes → Result (Option Bytes)
encryption_key true none generated = generated >>= λ key. ok (some key)
encryption_key true (some []) generated = generated >>= λ key. ok (some key)
encryption_key _ encr_key generated = ok encr_key

-- The key that `encrypt` reads from the file of `--inputkey`.
unfoldable pub input_key : Files → Str → Result (Option Bytes)
input_key files [] = ok none
input_key files (c ∷ path) = do
  guard (is_bin_path (c ∷ path)) (system_exit failure)
  key ← or_raise (files.read (c ∷ path)) os_error
  ok (some (take 64 key))

module _ (xts : XtsAes) (files : Files) (generate_key : Result Bytes) where
  -- `generate`, with the outcome of `generate_key`, once the paths are made.
  unfoldable pub generate : Str → Str → ℕ → Bool → Option Bytes → List Row → Result Bytes
  unfolding write_partition is_bin_path encryption_key
  generate size output version is_encr_enabled encr_key rows = do
    input_size ← check_size size
    guard (is_bin_path output) (system_exit failure)
    key ← encryption_key is_encr_enabled encr_key generate_key
    nvs ← nvs_open input_size (page_version version) is_encr_enabled key
    write_partition xts files rows nvs

  -- `encrypt`; an option that is not given is an empty text.
  unfoldable pub encrypt : Str → Str → ℕ → Bool → Str → List Row → Result Bytes
  unfolding generate input_key
  encrypt size output version keygen inputkey rows = do
    usable ← check_size size
    guard (keygen || not (is_empty inputkey)) (system_exit failure)
    guard (not (keygen && not (is_empty inputkey))) (system_exit failure)
    key ← input_key files inputkey
    generate size output version true key rows
