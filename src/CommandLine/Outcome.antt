-- ===== src/CommandLine/Outcome.antt =====
-- What `main` does with a command line.
use pedge.Prelude.{List}
use pedge.Exceptions.{Exception, Result, ok, err, attribute_error}
use pedge.Python.Bytes.{Bytes, Str}
use pedge.Cipher.{XtsAes}
use pedge.Disk.{Disk, ◌>>=◌, lift}
use pedge.Keys.{Draws}
use pedge.CommandLine.{
  Func, Argument, arguments, Attribute, Namespace, no_command, command, call_command, main,
}
use pedge.CommandLine.Reads.{AllAllowed}
use pedge.CommandLine.Calls.{Calls, call-Calls}

-- The values of a command are ones that its arguments can have.
abbrev pub Fits : (Func → List Argument) → Result Namespace → Type 0
Fits table (err e) = Unit
Fits table (ok no_command) = Unit
Fits table (ok (command func values)) = AllAllowed (table func) values

-- What `argparse` promises: a command has a value for each of its arguments, and no other.
pub record IsParser (parse_args : (Func → List Argument) → List Str → Result Namespace)
    : Type 0 where
  pub fits : (table : Func → List Argument) (words : List Str) → Fits table (parse_args table words)

module _ {D : Type 0} (disk : Disk D) (xts : XtsAes) (hmac : Bytes → Bytes → Bytes) (draws : Draws)
    (cwd : Str) where
  -- What becomes of a command line, by what the parser makes of it.
  pub data Ends (d : D) : Result Namespace → Result (Unit {0}) × D → Type 0 where
    refused : (e : Exception) → Ends d (err e) (err e, d)
    no_func : Ends d (ok no_command) (err attribute_error, d)
    called :
        (func : Func) (values : List Attribute) {out : Result (Unit {0}) × D}
        → Calls disk xts hmac draws cwd d func values out
        → Ends d (ok (command func values)) out

  -- A command line that the parser refuses ends with its exit, one without a command with an
  -- AttributeError, both with nothing changed; any other runs its command's function, with each option
  -- from the value of the argument that declares it, and the version 1 or 2.
  pub main-Ends :
      (parse_args : (Func → List Argument) → List Str → Result Namespace) (words : List Str) (d : D)
      → IsParser parse_args
      → Ends d (parse_args (arguments cwd) words) (main disk xts hmac draws cwd parse_args words d)
  unfolding main call_command
  main-Ends parse_args words d laws =
      by_case (parse_args (arguments cwd) words) (laws.fits (arguments cwd) words)
    where
      by_case :
          (r : Result Namespace)
          → Fits (arguments cwd) r
          → Ends d r ((lift r >>= call_command disk xts hmac draws cwd) d)
      by_case (err e) h = refused e
      by_case (ok no_command) h = no_func
      by_case (ok (command func values)) h =
          called func values (call-Calls disk xts hmac draws cwd func values d h)
