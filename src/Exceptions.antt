-- ===== src/Exceptions.antt =====
-- The exceptions that the tool raises or lets through, and a call that may raise.
-- The classes of services/esp32-config-builder/nvs_partition_gen.py, lines 587-611, and those of
-- Python's own that its code can meet.
use pedge.Prelude.{◌≡◌, refl, Bool, true, false, Option, none, some}

-- What an `InputError` complains of.
pub data Complaint : Type 0 where
  size_exceeds_max invalid_data_length unsupported_encoding key_too_long : Complaint

-- The status of `sys.exit`: a text is printed and counts as 1. `argparse` exits with 2 where it
-- refuses a command line.
pub data Status : Type 0 where
  success failure two minus_two : Status

-- `out_of_fuel` is the model's: a loop was cut short.
pub data Exception : Type 0 where
  page_full_error insufficient_size_error : Exception
  input_error : Complaint → Exception
  assertion_error value_error struct_error type_error key_error index_error : Exception
  attribute_error unicode_error binascii_error os_error runtime_error csv_error out_of_fuel :
      Exception
  system_exit : Status → Exception

-- What a call leaves: an exception, or the value that it returns.
pub data Result {ℓ} (A : Type ℓ) : Type ℓ where
  err : Exception → Result A
  ok : A → Result A

-- A value that may be missing, and the exception if it is.
abbrev pub or_raise {ℓ} : {A : Type ℓ} → Option A → Exception → Result A
or_raise (some value) exception = ok value
or_raise none exception = err exception

-- A test that has to hold.
abbrev pub guard : Bool → Exception → Result (Unit {0})
guard false exception = err exception
guard true exception = ok tt

infixl 5 ◌>>=◌
abbrev pub ◌>>=◌ {ℓ₁ ℓ₂} : {A : Type ℓ₁} {B : Type ℓ₂} → Result A → (A → Result B) → Result B
err exception >>= rest = err exception
ok value >>= rest = rest value

infixl 5 ◌>>◌
abbrev pub ◌>>◌ {ℓ} : {B : Type ℓ} → Result (Unit {0}) → Result B → Result B
call >> rest = call >>= λ _. rest

-- Two calls that returned: so did the first, and the second on its value.
pub >>=-eq-ok {ℓ₁ ℓ₂} :
    {A : Type ℓ₁} {B : Type ℓ₂} (call : Result A) (rest : A → Result B) {out : B}
    → (call >>= rest) ≡ ok out
    → (value : A) × (call ≡ ok value) × (rest value ≡ ok out)
>>=-eq-ok (err exception) rest returned = cc
>>=-eq-ok (ok value) rest returned = (value, refl, returned)

pub ok-injective {ℓ} : {A : Type ℓ} {a b : A} → ok a ≡ ok b → a ≡ b
ok-injective e = cc

pub or_raise-eq-ok :
    {A : Type 0} (o : Option A) (e : Exception) {a : A} → or_raise o e ≡ ok a → o ≡ some a
or_raise-eq-ok none e h = cc
or_raise-eq-ok (some b) e h = cc

pub guard-eq-ok : (b : Bool) (e : Exception) {u : Unit {0}} → guard b e ≡ ok u → b ≡ true
guard-eq-ok true e h = refl
guard-eq-ok false e h = cc
