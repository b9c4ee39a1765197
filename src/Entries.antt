-- ===== src/Entries.antt =====
-- The methods of `class NVS` that write entries, and the module's wrapper `write_entry`
-- (nvs_partition_gen.py).
pub mod Primitive
pub mod Safe
pub mod Frame
use pedge.Prelude.{
  ℕ, ◌+◌, ◌%◌, [], ◌∷◌, ◌++◌, Bool, true, false, ◌&&◌, ◌||◌, ltb, leb, ◌==◌, Option, none, some, ℤ,
  pos, if◌then◌else◌,
}
use pedge.Exceptions.{
  Result, ok, err, or_raise, guard, page_full_error, input_error, invalid_data_length,
  unsupported_encoding, value_error, type_error, attribute_error, os_error,
}
use pedge.Exceptions
use Prim.Native.String.{String}
use pedge.Python.Bytes.{Bytes, Str}
use pedge.Python.Hex.{unhex}
use pedge.Python.Base64.{a2b_base64}
use pedge.Python.Number.{int, int_bytes, strip, is_space, is_ascii_space}
use pedge.Python.Utf8.{all_ascii}
use pedge.Python.Path.{isabs, join}
use pedge.Python.Utf8.{decode}
use pedge.Cipher.{XtsAes}
use pedge.State.{
  Value, text, binary, Encoding, u8, hex2bin, base64, string_encoding, unsupported, to_encoding,
  codes, str_eq,
}
use pedge.Page.Entry.{write_primitive_data}
use pedge.Nvs.{create_new_page}
use pedge.Nvs.Monad.{Action, raise, lift, get, modify, on_cur_page, ◌>>=◌, ◌>>◌}
use pedge.Varlen.{write_varlen_data}
use pedge.Varlen.Headers.{is_blob, is_string, value_length}

-- `encoding.lower()`, which matters for ASCII letters only: all encodings are ASCII.
unfoldable pub lower : Str → Str
lower [] = []
lower (c ∷ s) = (if leb b'A' c && leb c b'Z' then c + 32 else c) ∷ lower s

-- A `str` argument of `binascii` has to be ASCII.
unfoldable pub ascii_argument : Value → Result Bytes
ascii_argument (text s) = if all_ascii s then ok s else err value_error
ascii_argument (binary bs) = ok bs

unfoldable pub strip_value : Value → Value
strip_value (text s) = text (strip is_space s)
strip_value (binary bs) = binary (strip is_ascii_space bs)

-- The bytes of a `hex2bin` value, and of a `base64` value.
unfoldable pub hex2bin_bytes : Value → Result Bytes
unfolding ascii_argument strip_value
hex2bin_bytes v =
    let stripped = strip_value v in
    Exceptions.◌>>=◌ (guard (value_length stripped % 2 == 0) (input_error invalid_data_length))
      (λ _. Exceptions.◌>>=◌ (ascii_argument stripped) unhex)

unfoldable pub base64_bytes : Value → Result Bytes
unfolding ascii_argument
base64_bytes v = Exceptions.◌>>=◌ (ascii_argument v) a2b_base64

-- "Encoding-specific handling", by the encoding as it was given.
unfoldable pub convert_value : Encoding → Value → Result Value
unfolding hex2bin_bytes base64_bytes
convert_value hex2bin v = Exceptions.◌>>=◌ (hex2bin_bytes v) (λ bs. ok (binary bs))
convert_value base64 v = Exceptions.◌>>=◌ (base64_bytes v) (λ bs. ok (binary bs))
convert_value string_encoding (text s) = ok (text (s ++ (0 ∷ [])))
convert_value string_encoding (binary bs) =
    Exceptions.◌>>=◌ (decode bs) (λ s. ok (text (s ++ (0 ∷ []))))
convert_value _ v = ok v

-- What becomes of the value None: only the encodings that are not tested for let it through.
unfoldable pub convert : Encoding → Option Value → Result (Option Value)
unfolding convert_value
convert encoding (some v) = Exceptions.◌>>=◌ (convert_value encoding v) (λ w. ok (some w))
convert hex2bin none = err attribute_error
convert base64 none = err type_error
convert string_encoding none = err type_error
convert _ none = ok none

-- `int(value)`.
unfoldable pub int_value : Option Value → Result ℤ
int_value none = err type_error
int_value (some (text s)) = or_raise (int s) value_error
int_value (some (binary bs)) = or_raise (int_bytes bs) value_error

-- `except PageFullError: new_page = self.create_new_page()`, and the call again on the new page.
unfoldable pub retry : Action (Unit {0}) → Result (Unit {0}) → Action (Unit {0})
retry m (err page_full_error) = create_new_page false >> m
retry m r = lift r

-- `try: m` with that handler.
unfoldable pub or_on_new_page : Action (Unit {0}) → Action (Unit {0})
unfolding retry
or_on_new_page m nvs = let (done, nvs') = m nvs in retry m done nvs'

module _ (xts : XtsAes) where
  unfoldable pub write_primitive : Str → ℤ → Encoding → ℕ → Action (Unit {0})
  write_primitive key value encoding ns_index = on_cur_page λ nvs self.
      Exceptions.◌>>=◌ (write_primitive_data xts nvs self key value encoding ns_index)
        (λ self'. ok (tt, self'))

  -- `NVS.write_namespace`.
  unfoldable pub write_namespace : Str → Action (Unit {0})
  unfolding write_primitive or_on_new_page
  write_namespace key = do
    modify (λ n. record n { namespace_idx = n.namespace_idx + 1 })
    nvs ← get
    or_on_new_page (write_primitive key (pos nvs.namespace_idx) u8 0)

  -- The two supported branches of `NVS.write_entry`, with the object's `namespace_idx`.
  unfoldable pub write_supported : Str → Option Value → Encoding → ℕ → Action (Unit {0})
  unfolding write_primitive or_on_new_page int_value
  write_supported key v encoding ns_index =
      if is_string encoding || is_blob encoding
      then (lift (or_raise v type_error) >>= λ w.
          or_on_new_page (write_varlen_data xts key w encoding ns_index))
      else (lift (int_value v) >>= λ value.
          or_on_new_page (write_primitive key value encoding ns_index))

  -- The branches of `NVS.write_entry` on the lower-case encoding.
  unfoldable pub write_converted : Str → Option Value → Encoding → Action (Unit {0})
  unfolding write_supported
  write_converted key v unsupported nvs = raise (input_error unsupported_encoding) nvs
  write_converted key v encoding nvs = write_supported key v encoding nvs.namespace_idx nvs

  -- `NVS.write_entry`. The encoding None equals no name and has no `lower`.
  unfoldable pub write_entry : Str → Option Value → Option Str → Action (Unit {0})
  unfolding write_converted convert lower
  write_entry key v none = raise attribute_error
  write_entry key v (some encoding) = do
    converted ← lift (convert (to_encoding encoding) v)
    write_converted key converted (to_encoding (lower encoding))

-- What the tool reads of the file system: its working directory and the files.
pub record Files : Type 0 where
  pub cwd : Str
  pub read : Str → Option Bytes

-- The path that a `file` row is read from.
unfoldable pub abs_file_path : Str → Str → Str
abs_file_path cwd value = if isabs value then value else join cwd value

-- The value of a row, read from its file where the type is `file`.
unfoldable pub row_value : Files → Bool → Option Str → Result (Option Value)
unfolding abs_file_path
row_value files false none = ok none
row_value files false (some s) = ok (some (text s))
row_value files true none = err type_error
row_value files true (some path) =
    Exceptions.◌>>=◌ (or_raise (files.read (abs_file_path files.cwd path)) os_error)
      (λ bs. ok (some (binary bs)))

abbrev pub is_type : String → Option Str → Bool
is_type name none = false
is_type name (some t) = str_eq t (codes name)

-- The module's `write_entry`.
unfoldable pub write_row_entry :
    XtsAes → Files → Str → Option Str → Option Str → Option Str → Action (Unit {0})
unfolding row_value
write_row_entry xts files key datatype encoding value = do
  v ← lift (row_value files (is_type "file" datatype) value)
  (if is_type "namespace" datatype then write_namespace xts key else write_entry xts key v encoding)
