-- ===== src/CommandLine/Calls.antt =====
-- The call that each command makes, by the values of its arguments.
use pedge.Prelude.{ℕ, ◌≡◌, refl, sym, List, [], ◌∷◌, Bool, false, Option, none}
use mathlib.Core.Path.{subst}
use pedge.Exceptions.{Result, ok}
use pedge.Python.Bytes.{Bytes, Str}
use pedge.Cipher.{XtsAes}
use pedge.State.{codes}
use pedge.Disk.{Disk, ◌>>=◌, pure}
use pedge.Keys.{KeyArgs, Draws, generate_key}
use pedge.Generate.Output.{Args, generate_file, encrypt_file}
use pedge.Decrypt.Output.{decrypt_file}
use pedge.CommandLine.{
  Func, func_generate, func_generate_key, func_encrypt, func_decrypt, arguments, Attribute, text,
  number, attribute, text_of, text_or_none, flag_of, number_of, getting, key_args_of, outdir_of,
  args_of, call,
}
use pedge.CommandLine.Reads.{
  AllAllowed, IsVersion, or_empty, text_or_none-given, filled, is_version, key_args_of-ok,
}
use pedge.CommandLine.Values.{get, only_outdir, key_options, generate_key_values, encrypt_values}

module _ {D : Type 0} (disk : Disk D) (xts : XtsAes) (hmac : Bytes → Bytes → Bytes) (draws : Draws)
    (cwd : Str) where
  -- The call that a command makes, by the values of its arguments in the order of their declaration.
  pub data Calls (d : D) : Func → List Attribute → Result (Unit {0}) × D → Type 0 where
    calls_generate :
        (input output size outdir : Str) (version : ℕ)
        → IsVersion version
        → Calls d func_generate
            (text input ∷ text output ∷ text size ∷ number version ∷ text outdir ∷ [])
            (generate_file disk xts cwd
              (record {
                size = size;
                input = input;
                output = output;
                version = version;
                key_args = only_outdir outdir;
              })
              hmac
              draws
              false
              none
              d)
    calls_generate_key :
        (protect hmac_keygen : Bool) (hmac_keyfile hmac_inputkey keyfile : Option Str)
        (outdir : Str)
        → Calls d func_generate_key
            (generate_key_values protect hmac_keygen hmac_keyfile hmac_inputkey keyfile outdir)
            ((generate_key disk hmac
                  (key_options protect hmac_keygen hmac_keyfile hmac_inputkey keyfile outdir)
                  draws
                >>= λ _. pure tt)
              d)
    calls_encrypt :
        (input output size outdir : Str) (version : ℕ) (keygen protect hmac_keygen : Bool)
        (keyfile inputkey hmac_keyfile hmac_inputkey : Option Str)
        → IsVersion version
        → Calls d func_encrypt
            (encrypt_values input output size outdir version keygen protect hmac_keygen keyfile
              inputkey hmac_keyfile hmac_inputkey)
            (encrypt_file disk xts cwd
              (record {
                size = size;
                input = input;
                output = output;
                version = version;
                key_args =
                    key_options protect hmac_keygen hmac_keyfile hmac_inputkey keyfile outdir;
              })
              hmac
              draws
              keygen
              (or_empty inputkey)
              d)
    calls_decrypt :
        (input key output outdir : Str)
        → Calls d func_decrypt
            (text input ∷ text key ∷ text output ∷ text outdir ∷ [])
            (decrypt_file disk xts outdir input key output d)

  call-generate_key :
      (g : Str → Result Attribute) (d : D) {key_args : KeyArgs}
      → key_args_of g ≡ ok key_args
      → call disk xts hmac draws cwd func_generate_key g d
        ≡ (generate_key disk hmac key_args draws >>= λ _. pure tt) d
  unfolding call
  call-generate_key g d p = rw p refl

  generate_key-Calls :
      (protect hmac_keygen : Bool) (hmac_keyfile hmac_inputkey keyfile : Option Str) (outdir : Str)
      (d : D)
      → (let values =
            generate_key_values protect hmac_keygen hmac_keyfile hmac_inputkey keyfile outdir in
          Calls d func_generate_key values
            (call disk xts hmac draws cwd func_generate_key (get cwd func_generate_key values) d))
  unfolding arguments attribute text_of flag_of
  generate_key-Calls protect hmac_keygen hmac_keyfile hmac_inputkey keyfile outdir d =
      let values =
        generate_key_values protect hmac_keygen hmac_keyfile hmac_inputkey keyfile outdir in
      let g = get cwd func_generate_key values in
      subst (Calls d func_generate_key values)
        (sym (
          call-generate_key g d (
            key_args_of-ok g refl (text_or_none-given keyfile) refl refl
              (text_or_none-given hmac_keyfile) (text_or_none-given hmac_inputkey))))
        (calls_generate_key protect hmac_keygen hmac_keyfile hmac_inputkey keyfile outdir)

  call-encrypt :
      (g : Str → Result Attribute) (d : D) {key_args : KeyArgs} {args : Args} {keygen : Bool}
      {inputkey : Str}
      → key_args_of g ≡ ok key_args
      → args_of g (ok key_args) ≡ ok args
      → getting g flag_of (codes "keygen") ≡ ok keygen
      → getting g text_or_none (codes "inputkey") ≡ ok inputkey
      → call disk xts hmac draws cwd func_encrypt g d
        ≡ encrypt_file disk xts cwd args hmac draws keygen inputkey d
  unfolding call
  call-encrypt g d p q r t = rw (p, q, r, t) refl

  encrypt-Calls :
      (input output size outdir : Str) (version : ℕ) (keygen protect hmac_keygen : Bool)
      (keyfile inputkey hmac_keyfile hmac_inputkey : Option Str)
      → IsVersion version
      → (d : D)
      → (let values =
            encrypt_values input output size outdir version keygen protect hmac_keygen keyfile
              inputkey hmac_keyfile hmac_inputkey in
          Calls d func_encrypt values
            (call disk xts hmac draws cwd func_encrypt (get cwd func_encrypt values) d))
  unfolding arguments attribute text_of flag_of number_of args_of
  encrypt-Calls input output size outdir version keygen protect hmac_keygen keyfile inputkey
        hmac_keyfile hmac_inputkey is d =
      let values =
        encrypt_values input output size outdir version keygen protect hmac_keygen keyfile inputkey
          hmac_keyfile hmac_inputkey in
      let g = get cwd func_encrypt values in
      subst (Calls d func_encrypt values)
        (sym (
          call-encrypt g d
            (key_args_of-ok g refl (text_or_none-given keyfile) refl refl
              (text_or_none-given hmac_keyfile) (text_or_none-given hmac_inputkey))
            refl refl (text_or_none-given inputkey)))
        (calls_encrypt input output size outdir version keygen protect hmac_keygen keyfile inputkey
          hmac_keyfile hmac_inputkey is)

  filled_generate_key :
      (values : List Attribute) (d : D)
      → AllAllowed (arguments cwd func_generate_key) values
      → Calls d func_generate_key values
          (call disk xts hmac draws cwd func_generate_key (get cwd func_generate_key values) d)
  unfolding arguments
  filled_generate_key values d h =
      let (protect, vs₁, p₁, h₁) = filled (arguments cwd func_generate_key) values h in
      let (hmac_keygen, vs₂, p₂, h₂) = h₁ in
      let (hmac_keyfile, vs₃, p₃, h₃) = h₂ in
      let (hmac_inputkey, vs₄, p₄, h₄) = h₃ in
      let (keyfile, vs₅, p₅, h₅) = h₄ in
      let (outdir, vs₆, p₆, h₆) = h₅ in
      rw (p₁, p₂, p₃, p₄, p₅, p₆, h₆)
        (generate_key-Calls protect hmac_keygen hmac_keyfile hmac_inputkey keyfile outdir d)

  filled_encrypt :
      (values : List Attribute) (d : D)
      → AllAllowed (arguments cwd func_encrypt) values
      → Calls d func_encrypt values
          (call disk xts hmac draws cwd func_encrypt (get cwd func_encrypt values) d)
  unfolding arguments
  filled_encrypt values d h =
      let (input, vs₁, p₁, h₁) = filled (arguments cwd func_encrypt) values h in
      let (output, vs₂, p₂, h₂) = h₁ in
      let (size, vs₃, p₃, h₃) = h₂ in
      let (version, vs₄, p₄, h₄) = h₃ in
      let (keygen, vs₅, p₅, h₅) = h₄ in
      let (keyfile, vs₆, p₆, h₆) = h₅ in
      let (inputkey, vs₇, p₇, h₇) = h₆ in
      let (outdir, vs₈, p₈, h₈) = h₇ in
      let (protect, vs₉, p₉, h₉) = h₈ in
      let (hmac_keygen, vs₁₀, p₁₀, h₁₀) = h₉ in
      let (hmac_keyfile, vs₁₁, p₁₁, h₁₁) = h₁₀ in
      let (hmac_inputkey, vs₁₂, p₁₂, h₁₂) = h₁₁ in
      rw (p₁, p₂, p₃, p₄, p₅, p₆, p₇, p₈, p₉, p₁₀, p₁₁, p₁₂, h₁₂)
        (encrypt-Calls input output size outdir version.0 keygen protect hmac_keygen keyfile
          inputkey hmac_keyfile hmac_inputkey (is_version version) d)

  generate-Calls :
      (input output size outdir : Str) (version : ℕ)
      → IsVersion version
      → (d : D)
      → (let values = text input ∷ text output ∷ text size ∷ number version ∷ text outdir ∷ [] in
          Calls d func_generate values
            (call disk xts hmac draws cwd func_generate (get cwd func_generate values) d))
  unfolding call arguments attribute args_of outdir_of text_of number_of
  generate-Calls input output size outdir version is d =
      calls_generate input output size outdir version is

  filled_generate :
      (values : List Attribute) (d : D)
      → AllAllowed (arguments cwd func_generate) values
      → Calls d func_generate values
          (call disk xts hmac draws cwd func_generate (get cwd func_generate values) d)
  unfolding arguments
  filled_generate values d h =
      let (input, vs₁, p₁, h₁) = filled (arguments cwd func_generate) values h in
      let (output, vs₂, p₂, h₂) = h₁ in
      let (size, vs₃, p₃, h₃) = h₂ in
      let (version, vs₄, p₄, h₄) = h₃ in
      let (outdir, vs₅, p₅, h₅) = h₄ in
      rw (p₁, p₂, p₃, p₄, p₅, h₅)
        (generate-Calls input output size outdir version.0 (is_version version) d)

  decrypt-Calls :
      (input key output outdir : Str) (d : D)
      → (let values = text input ∷ text key ∷ text output ∷ text outdir ∷ [] in
          Calls d func_decrypt values
            (call disk xts hmac draws cwd func_decrypt (get cwd func_decrypt values) d))
  unfolding call arguments attribute text_of
  decrypt-Calls input key output outdir d = calls_decrypt input key output outdir

  filled_decrypt :
      (values : List Attribute) (d : D)
      → AllAllowed (arguments cwd func_decrypt) values
      → Calls d func_decrypt values
          (call disk xts hmac draws cwd func_decrypt (get cwd func_decrypt values) d)
  unfolding arguments
  filled_decrypt values d h =
      let (input, vs₁, p₁, h₁) = filled (arguments cwd func_decrypt) values h in
      let (key, vs₂, p₂, h₂) = h₁ in
      let (output, vs₃, p₃, h₃) = h₂ in
      let (outdir, vs₄, p₄, h₄) = h₃ in
      rw (p₁, p₂, p₃, p₄, h₄) (decrypt-Calls input key output outdir d)

  pub call-Calls :
      (func : Func) (values : List Attribute) (d : D)
      → AllAllowed (arguments cwd func) values
      → Calls d func values (call disk xts hmac draws cwd func (get cwd func values) d)
  call-Calls func_generate values d h = filled_generate values d h
  call-Calls func_generate_key values d h = filled_generate_key values d h
  call-Calls func_encrypt values d h = filled_encrypt values d h
  call-Calls func_decrypt values d h = filled_decrypt values d h
