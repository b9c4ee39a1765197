-- ===== src/CommandLine/Reads.antt =====
-- The values that the arguments of a command can have, and what its function reads of them.
use pedge.Prelude.{ℕ, ◌≡◌, ◌⊎◌, inl, inr, refl, ap, List, [], ◌∷◌, Bool, Option, none, some}
use pedge.Exceptions.{Result, ok}
use pedge.Python.Bytes.{Str}
use pedge.State.{codes}
use pedge.CommandLine.{
  Taken, positional, optional, store_true, one_of, Argument, Attribute, text, none_value, flag,
  number, text_of, text_or_none, flag_of, key_args_of, getting,
}

abbrev pub OneOf : ℕ → List ℕ → Type 0
OneOf n [] = ⊥
OneOf n (choice ∷ choices) = (n ≡ choice) ⊎ OneOf n choices

-- A value that an argument can have.
abbrev pub Allowed : Taken → Attribute → Type 0
Allowed positional (text s) = Unit
Allowed (optional default) (text s) = Unit
Allowed (optional none) none_value = Unit
Allowed store_true (flag b) = Unit
Allowed (one_of choices default) (number n) = OneOf n choices ⊎ (n ≡ default)
Allowed _ _ = ⊥

abbrev pub AllAllowed : List Argument → List Attribute → Type 0
AllAllowed [] [] = Unit
AllAllowed (a ∷ rest) (v ∷ values) = Allowed a.taken v × AllAllowed rest values
AllAllowed _ _ = ⊥

abbrev pub IsVersion : ℕ → Type 0
IsVersion n = (n ≡ 1) ⊎ (n ≡ 2)

-- An option that may be left out, and what the code makes of it.
abbrev pub given : Option Str → Attribute
given none = none_value
given (some s) = text s

abbrev pub or_empty : Option Str → Str
or_empty none = []
or_empty (some s) = s

pub text_or_none-given : (o : Option Str) → text_or_none (given o) ≡ ok (or_empty o)
unfolding text_or_none
text_or_none-given none = refl
text_or_none-given (some s) = refl

-- The values by kind of argument.
abbrev pub ValueOf : Taken → Type 0
ValueOf positional = Str
ValueOf (optional none) = Option Str
ValueOf (optional (some default)) = Str
ValueOf store_true = Bool
ValueOf (one_of choices default) = (n : ℕ) × (OneOf n choices ⊎ (n ≡ default))

abbrev pub attribute_of : (t : Taken) → ValueOf t → Attribute
attribute_of positional s = text s
attribute_of (optional none) o = given o
attribute_of (optional (some default)) s = text s
attribute_of store_true b = flag b
attribute_of (one_of choices default) (n, is) = number n

value_of : (t : Taken) (v : Attribute) → Allowed t v → (x : ValueOf t) × (v ≡ attribute_of t x)
value_of positional (text s) h = (s, refl)
value_of (optional none) (text s) h = (some s, refl)
value_of (optional none) none_value h = (none, refl)
value_of (optional (some default)) (text s) h = (s, refl)
value_of store_true (flag b) h = (b, refl)
value_of (one_of choices default) (number n) h = ((n, h), refl)
value_of _ _ h = elim h [ ]

-- One value after the other.
abbrev pub Filled : List Argument → List Attribute → Type 0
Filled [] values = values ≡ []
Filled (a ∷ table) values =
    (x : ValueOf a.taken) × (others : List Attribute) × (values ≡ attribute_of a.taken x ∷ others)
    × Filled table others

pub filled :
    (table : List Argument) (values : List Attribute)
    → AllAllowed table values
    → Filled table values
filled [] [] h = refl
filled [] (v ∷ values) h = elim h [ ]
filled (a ∷ table) [] h = elim h [ ]
filled (a ∷ table) (v ∷ values) h =
    let (x, e) = value_of a.taken v h.0 in
    (x, values, ap (λ w. w ∷ values) e, filled table values h.1)

pub is_version : (v : ValueOf (one_of (1 ∷ 2 ∷ []) 2)) → IsVersion v.0
is_version (n, inl (inl e)) = inl e
is_version (n, inl (inr (inl e))) = inr e
is_version (n, inl (inr (inr x))) = elim x [ ]
is_version (n, inr e) = inr e

-- The options of key generation, by their attributes.
pub key_args_of-ok :
    (get : Str → Result Attribute) {outdir keyfile hmac_keyfile inputkey : Str}
    {protect keygen : Bool}
    → getting get text_of (codes "outdir") ≡ ok outdir
    → getting get text_or_none (codes "keyfile") ≡ ok keyfile
    → getting get flag_of (codes "key_protect_hmac") ≡ ok protect
    → getting get flag_of (codes "kp_hmac_keygen") ≡ ok keygen
    → getting get text_or_none (codes "kp_hmac_keyfile") ≡ ok hmac_keyfile
    → getting get text_or_none (codes "kp_hmac_inputkey") ≡ ok inputkey
    → key_args_of get
      ≡ ok (record {
        outdir = outdir;
        keyfile = keyfile;
        key_protect_hmac = protect;
        kp_hmac_keygen = keygen;
        kp_hmac_keyfile = hmac_keyfile;
        kp_hmac_inputkey = inputkey;
      })
unfolding key_args_of
key_args_of-ok get p₁ p₂ p₃ p₄ p₅ p₆ = rw (p₁, p₂, p₃, p₄, p₅, p₆) refl
