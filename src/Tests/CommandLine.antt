-- ===== src/Tests/CommandLine.antt =====
-- The theorem on the command line for a parser that takes a command and its positional arguments, and
-- leaves every option at its default.
use pedge.Prelude.{◌≡◌, refl, List, [], ◌∷◌, Option, none, some, false, inr, if◌then◌else◌}
use pedge.Exceptions.{Result, ok, err, system_exit, two, ◌>>=◌, >>=-eq-ok, ok-injective}
use mathlib.Core.Path.{subst}
use pedge.Python.Bytes.{Str}
use pedge.State.{codes, str_eq}
use pedge.CommandLine.{
  Func, func_generate, func_generate_key, func_encrypt, func_decrypt, Taken, positional, optional,
  store_true, one_of, Argument, arguments, Attribute, text, none_value, flag, number, Namespace,
  no_command, command, main,
}
use pedge.CommandLine.Reads.{Allowed, AllAllowed}
use pedge.CommandLine.Outcome.{Fits, IsParser, Ends, main-Ends}
use pedge.Tests.{cipher}
use pedge.Tests.Devices.{disk, hmac, draws}

fill_one : Taken → List Str → Result (Attribute × List Str)
fill_one positional [] = err (system_exit two)
fill_one positional (w ∷ words) = ok (text w, words)
fill_one (optional none) words = ok (none_value, words)
fill_one (optional (some s)) words = ok (text s, words)
fill_one store_true words = ok (flag false, words)
fill_one (one_of choices n) words = ok (number n, words)

fill : List Argument → List Str → Result (List Attribute)
fill [] [] = ok []
fill [] (w ∷ words) = err (system_exit two)
fill (a ∷ table) words =
    fill_one a.taken words >>= λ one. fill table one.1 >>= λ values. ok (one.0 ∷ values)

fill_one-Allowed :
    (t : Taken) (words : List Str) {one : Attribute × List Str}
    → fill_one t words ≡ ok one
    → Allowed t one.0
unfolding fill_one
fill_one-Allowed positional [] e = cc
fill_one-Allowed positional (w ∷ words) e = subst (λ r. Allowed positional r.0) (ok-injective e) tt
fill_one-Allowed (optional none) words e =
    subst (λ r. Allowed (optional none) r.0) (ok-injective e) tt
fill_one-Allowed (optional (some s)) words e =
    subst (λ r. Allowed (optional (some s)) r.0) (ok-injective e) tt
fill_one-Allowed store_true words e = subst (λ r. Allowed store_true r.0) (ok-injective e) tt
fill_one-Allowed (one_of choices n) words e =
    subst (λ r. Allowed (one_of choices n) r.0) (ok-injective e) (inr refl)

fill-AllAllowed :
    (table : List Argument) (words : List Str) {values : List Attribute}
    → fill table words ≡ ok values
    → AllAllowed table values
unfolding fill
fill-AllAllowed [] [] e = subst (AllAllowed []) (ok-injective e) tt
fill-AllAllowed [] (w ∷ words) e = cc
fill-AllAllowed (a ∷ table) words e =
    let (one, p, h) = >>=-eq-ok (fill_one a.taken words) _ e in
    let (values, q, k) = >>=-eq-ok (fill table one.1) _ h in
    subst (AllAllowed (a ∷ table)) (ok-injective k)
      (fill_one-Allowed a.taken words p, fill-AllAllowed table one.1 q)

abbrev func_of : Str → Option Func
func_of name =
    if str_eq name (codes "generate")
    then some func_generate
    else if str_eq name (codes "generate-key")
    then some func_generate_key
    else if str_eq name (codes "encrypt")
    then some func_encrypt
    else if str_eq name (codes "decrypt")
    then some func_decrypt
    else none

command_of : (Func → List Argument) → Option Func → List Str → Result Namespace
command_of table none words = err (system_exit two)
command_of table (some func) words = fill (table func) words >>= λ values. ok (command func values)

command_of-Fits :
    (table : Func → List Argument) (func : Option Func) (words : List Str)
    → Fits table (command_of table func words)
unfolding command_of
command_of-Fits table none words = tt
command_of-Fits table (some func) words =
    by_case (fill (table func) words) (λ values e. fill-AllAllowed (table func) words e)
  where
    by_case :
        (r : Result (List Attribute))
        → ((values : List Attribute) → r ≡ ok values → AllAllowed (table func) values)
        → Fits table (r >>= λ values. ok (command func values))
    by_case (err e) h = tt
    by_case (ok values) h = h values refl

parser : (Func → List Argument) → List Str → Result Namespace
parser table [] = ok no_command
parser table (name ∷ words) = command_of table (func_of name) words

parser-IsParser : IsParser parser
unfolding parser
parser-IsParser = record { fits = fits }
  where
    fits : (table : Func → List Argument) (words : List Str) → Fits table (parser table words)
    fits table [] = tt
    fits table (name ∷ words) = command_of-Fits table (func_of name) words

abbrev words : List Str
words = codes "generate" ∷ codes "in.csv" ∷ codes "out.bin" ∷ codes "0x4000" ∷ []

parsed :
    parser (arguments (codes "/app")) words
    ≡ ok (
        command func_generate (
          text (codes "in.csv")
          ∷ text (codes "out.bin")
          ∷ text (codes "0x4000")
          ∷ number 2
          ∷ text (codes "/app")
          ∷ []))
unfolding parser command_of fill fill_one arguments
parsed = refl

main-Ends_example :
    Ends disk cipher hmac draws
      (codes "/app")
      (λ path. none)
      (parser (arguments (codes "/app")) words)
      (main disk cipher hmac draws (codes "/app") parser words (λ path. none))
main-Ends_example =
    main-Ends disk cipher hmac draws (codes "/app") parser words (λ path. none) parser-IsParser
