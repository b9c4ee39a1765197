-- ===== src/CommandLine.antt =====
-- `main` of services/esp32-config-builder/nvs_partition_gen.py: the arguments of the four commands,
-- and the call of the chosen command's function. The parser is `argparse`, a parameter.
pub mod Reads
pub mod Values
pub mod Calls
pub mod Outcome
use pedge.Prelude.{ℕ, ◌≡◌, ◌⊎◌, List, [], ◌∷◌, Bool, true, false, Option, none, some, if◌then◌else◌}
use pedge.Exceptions.{Result, ok, err, attribute_error, type_error}
use pedge.Exceptions
use pedge.Python.Bytes.{Bytes, Str}
use pedge.Cipher.{XtsAes}
use pedge.State.{codes, str_eq}
use pedge.Disk.{Disk, DiskAction, ◌>>=◌, ◌>>◌, pure, lift}
use pedge.Keys.{KeyArgs, Draws, generate_key}
use pedge.Generate.Output.{Args, generate_file, encrypt_file}
use pedge.Decrypt.Output.{decrypt_file}

-- What `set_defaults(func=...)` sets for each of the commands.
pub data Func : Type 0 where
  func_generate func_generate_key func_encrypt func_decrypt : Func

-- What `add_argument` is told: a positional argument, an option with a text and its default, an option
-- with `store_true`, and one with `type=int`, its `choices` and its default.
pub data Taken : Type 0 where
  positional : Taken
  optional : Option Str → Taken
  store_true : Taken
  one_of : List ℕ → ℕ → Taken

pub record Argument : Type 0 where
  pub dest : Str
  pub taken : Taken

abbrev pub argument : Str → Taken → Argument
argument dest taken = record { dest = dest; taken = taken }

-- The options of key generation that `generate-key` and `encrypt` share.
abbrev pub hmac_arguments : List Argument
hmac_arguments =
    argument (codes "key_protect_hmac") store_true
    ∷ argument (codes "kp_hmac_keygen") store_true
    ∷ argument (codes "kp_hmac_keyfile") (optional none)
    ∷ argument (codes "kp_hmac_inputkey") (optional none)
    ∷ []

-- The arguments of each command, in the order of their declaration; `cwd` is `os.getcwd()`.
unfoldable pub arguments : Str → Func → List Argument
arguments cwd func_generate =
    argument (codes "input") positional
    ∷ argument (codes "output") positional
    ∷ argument (codes "size") positional
    ∷ argument (codes "version") (one_of (1 ∷ 2 ∷ []) 2)
    ∷ argument (codes "outdir") (optional (some cwd))
    ∷ []
arguments cwd func_generate_key =
    argument (codes "key_protect_hmac") store_true
    ∷ argument (codes "kp_hmac_keygen") store_true
    ∷ argument (codes "kp_hmac_keyfile") (optional none)
    ∷ argument (codes "kp_hmac_inputkey") (optional none)
    ∷ argument (codes "keyfile") (optional none)
    ∷ argument (codes "outdir") (optional (some cwd))
    ∷ []
arguments cwd func_encrypt =
    argument (codes "input") positional
    ∷ argument (codes "output") positional
    ∷ argument (codes "size") positional
    ∷ argument (codes "version") (one_of (1 ∷ 2 ∷ []) 2)
    ∷ argument (codes "keygen") store_true
    ∷ argument (codes "keyfile") (optional none)
    ∷ argument (codes "inputkey") (optional none)
    ∷ argument (codes "outdir") (optional (some cwd))
    ∷ hmac_arguments
arguments cwd func_decrypt =
    argument (codes "input") positional
    ∷ argument (codes "key") positional
    ∷ argument (codes "output") positional
    ∷ argument (codes "outdir") (optional (some cwd))
    ∷ []

-- An attribute's value: a text, None, a truth value or a number.
pub data Attribute : Type 0 where
  text : Str → Attribute
  none_value : Attribute
  flag : Bool → Attribute
  number : ℕ → Attribute

-- What `parse_args` returns: no command and so no `func`, or a command's `func` and the value of each
-- of its arguments, in the order of their declaration.
pub data Namespace : Type 0 where
  no_command : Namespace
  command : Func → List Attribute → Namespace

-- `args.name`.
unfoldable pub attribute : Str → List Argument → List Attribute → Result Attribute
attribute name [] values = err attribute_error
attribute name (a ∷ rest) [] = err attribute_error
attribute name (a ∷ rest) (v ∷ values) =
    if str_eq a.dest name then ok v else attribute name rest values

-- An attribute that has to be a text, one that may be None (as an empty text, which every test of
-- the code takes alike), a truth value and a number.
unfoldable pub text_of : Attribute → Result Str
text_of (text s) = ok s
text_of _ = err type_error

unfoldable pub text_or_none : Attribute → Result Str
text_or_none (text s) = ok s
text_or_none none_value = ok []
text_or_none _ = err type_error

unfoldable pub flag_of : Attribute → Result Bool
flag_of (flag b) = ok b
flag_of _ = err type_error

unfoldable pub number_of : Attribute → Result ℕ
number_of (number n) = ok n
number_of _ = err type_error

-- The options of a run, from the attributes by name.
module _ (get : Str → Result Attribute) where
  abbrev pub getting : {A : Type 0} → (Attribute → Result A) → Str → Result A
  getting read name = Exceptions.◌>>=◌ (get name) read

  -- Those that `generate_key` reads.
  unfoldable pub key_args_of : Result KeyArgs
  unfolding text_of text_or_none flag_of
  key_args_of = Exceptions.◌>>=◌ (getting text_of (codes "outdir")) λ outdir.
      Exceptions.◌>>=◌ (getting text_or_none (codes "keyfile")) λ keyfile.
        Exceptions.◌>>=◌ (getting flag_of (codes "key_protect_hmac")) λ protect.
          Exceptions.◌>>=◌ (getting flag_of (codes "kp_hmac_keygen")) λ keygen.
            Exceptions.◌>>=◌ (getting text_or_none (codes "kp_hmac_keyfile")) λ hmac_keyfile.
              Exceptions.◌>>=◌ (getting text_or_none (codes "kp_hmac_inputkey")) λ inputkey.
                ok (record {
                  outdir = outdir;
                  keyfile = keyfile;
                  key_protect_hmac = protect;
                  kp_hmac_keygen = keygen;
                  kp_hmac_keyfile = hmac_keyfile;
                  kp_hmac_inputkey = inputkey;
                })

  -- Without encryption `generate` reads the output directory alone of them.
  unfoldable pub outdir_of : Result KeyArgs
  unfolding text_of
  outdir_of = Exceptions.◌>>=◌ (getting text_of (codes "outdir")) λ outdir. ok (record {
    outdir = outdir;
    keyfile = [];
    key_protect_hmac = false;
    kp_hmac_keygen = false;
    kp_hmac_keyfile = [];
    kp_hmac_inputkey = [];
  })

  -- Those that `generate` reads, with the ones of key generation.
  unfoldable pub args_of : Result KeyArgs → Result Args
  unfolding text_of number_of
  args_of key_args = Exceptions.◌>>=◌ (getting text_of (codes "size")) λ size.
      Exceptions.◌>>=◌ (getting text_of (codes "input")) λ input.
        Exceptions.◌>>=◌ (getting text_of (codes "output")) λ output.
          Exceptions.◌>>=◌ (getting number_of (codes "version")) λ version.
            Exceptions.◌>>=◌ key_args λ options. ok (record {
              size = size;
              input = input;
              output = output;
              version = version;
              key_args = options;
            })

module _ {D : Type 0} (disk : Disk D) (xts : XtsAes) (hmac : Bytes → Bytes → Bytes) (draws : Draws)
    (cwd : Str) where
  -- `args.func(args)`, by `func` and the attributes.
  unfoldable pub call : Func → (Str → Result Attribute) → DiskAction D (Unit {0})
  unfolding args_of key_args_of outdir_of
  call func_generate get = do
    args ← lift (args_of get (outdir_of get))
    generate_file disk xts cwd args hmac draws false none
  call func_generate_key get = do
    key_args ← lift (key_args_of get)
    key ← generate_key disk hmac key_args draws
    pure tt
  call func_encrypt get = do
    args ← lift (args_of get (key_args_of get))
    keygen ← lift (getting get flag_of (codes "keygen"))
    inputkey ← lift (getting get text_or_none (codes "inputkey"))
    encrypt_file disk xts cwd args hmac draws keygen inputkey
  call func_decrypt get = do
    outdir ← lift (getting get text_of (codes "outdir"))
    input ← lift (getting get text_of (codes "input"))
    key ← lift (getting get text_of (codes "key"))
    output ← lift (getting get text_of (codes "output"))
    decrypt_file disk xts outdir input key output

  -- The call, on what the parser returned. With no command there is no `func`.
  unfoldable pub call_command : Namespace → DiskAction D (Unit {0})
  unfolding call attribute
  call_command no_command = lift (err attribute_error)
  call_command (command func values) = call func λ name. attribute name (arguments cwd func) values

  -- `main`, on the words of the command line, with `parser.parse_args`.
  unfoldable pub main :
      ((Func → List Argument) → List Str → Result Namespace) → List Str → DiskAction D (Unit {0})
  unfolding call_command
  main parse_args words = lift (parse_args (arguments cwd) words) >>= call_command
