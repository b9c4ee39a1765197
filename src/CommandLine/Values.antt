-- ===== src/CommandLine/Values.antt =====
-- The values of the arguments of each command, and the options that its function makes of them.
use pedge.Prelude.{ℕ, List, [], ◌∷◌, Bool, false, Option}
use pedge.Exceptions.{Result}
use pedge.Python.Bytes.{Str}
use pedge.Keys.{KeyArgs}
use pedge.CommandLine.{Func, arguments, Attribute, text, flag, number, attribute}
use pedge.CommandLine.Reads.{given, or_empty}

-- The attribute of a name, among the values of a command.
abbrev pub get : Str → Func → List Attribute → Str → Result Attribute
get cwd func values name = attribute name (arguments cwd func) values

-- The options of key generation: those that `generate` reads, and all.
abbrev pub only_outdir : Str → KeyArgs
only_outdir outdir = record {
  outdir = outdir;
  keyfile = [];
  key_protect_hmac = false;
  kp_hmac_keygen = false;
  kp_hmac_keyfile = [];
  kp_hmac_inputkey = [];
}

abbrev pub key_options : Bool → Bool → Option Str → Option Str → Option Str → Str → KeyArgs
key_options protect hmac_keygen hmac_keyfile hmac_inputkey keyfile outdir = record {
  outdir = outdir;
  keyfile = or_empty keyfile;
  key_protect_hmac = protect;
  kp_hmac_keygen = hmac_keygen;
  kp_hmac_keyfile = or_empty hmac_keyfile;
  kp_hmac_inputkey = or_empty hmac_inputkey;
}

-- The values of the arguments of `generate-key` and of `encrypt`, in the order of their declaration.
abbrev pub generate_key_values :
    Bool → Bool → Option Str → Option Str → Option Str → Str → List Attribute
generate_key_values protect hmac_keygen hmac_keyfile hmac_inputkey keyfile outdir =
    flag protect
    ∷ flag hmac_keygen
    ∷ given hmac_keyfile
    ∷ given hmac_inputkey
    ∷ given keyfile
    ∷ text outdir
    ∷ []

abbrev pub encrypt_values :
    Str
    → Str
    → Str
    → Str
    → ℕ
    → Bool
    → Bool
    → Bool
    → Option Str
    → Option Str
    → Option Str
    → Option Str
    → List Attribute
encrypt_values input output size outdir version keygen protect hmac_keygen keyfile inputkey
      hmac_keyfile hmac_inputkey =
    text input
    ∷ text output
    ∷ text size
    ∷ number version
    ∷ flag keygen
    ∷ given keyfile
    ∷ given inputkey
    ∷ text outdir
    ∷ flag protect
    ∷ flag hmac_keygen
    ∷ given hmac_keyfile
    ∷ given hmac_inputkey
    ∷ []
