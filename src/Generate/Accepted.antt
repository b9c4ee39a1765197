-- ===== src/Generate/Accepted.antt =====
-- What `generate` asks of the rows.
use pedge.Prelude.{
  All, ℕ, ◌≤◌, ◌≡◌, ◌≢◌, ◌⊎◌, inl, inr, refl, arith, length, List, [], ◌∷◌, Bool, true, false,
  Option, none, some, ltb, if◌then◌else◌,
}
use mathlib.Core.Path.{subst}
use pedge.Exceptions.{
  Result, ok, err, or_raise, or_raise-eq-ok, type_error, input_error, key_too_long, guard,
  system_exit, failure,
}
use pedge.Exceptions
use pedge.Python.Bytes.{Bytes, Str}
use pedge.Cipher.{XtsAes}
use pedge.State.{Nvs, Value, Encoding, to_encoding, unsupported}
use pedge.Nvs.{nvs_open, nvs_close}
use pedge.Nvs.Monad
use pedge.Nvs.Monad.{Action, lift, raise_if, >>=-eq-ok}
use pedge.Entries.{
  Files, is_type, row_value, lower, convert, write_converted, write_namespace, write_entry,
  write_row_entry,
}
use pedge.Generate.{
  Row, exit_if_input_error, exit_on_input_error, write_row, write_rows, write_partition, generate,
  check_size, is_bin_path, encryption_key, page_version,
}

-- A row with a key of at most 15 characters, which is a namespace or has an encoding that is
-- supported in lower case.
pub record Accepted (row : Row) : Type 0 where
  pub key : Str
  pub has_key : row.key ≡ some key
  pub short : length key ≤ 15
  pub typed :
      (is_type "namespace" row.datatype ≡ true)
      ⊎ ((e : Str) × (row.encoding ≡ some e) × (to_encoding (lower e) ≢ unsupported))

module _ (xts : XtsAes) where
  write_converted_supported :
      (key : Str) (v : Option Value) (e : Encoding) (n : Nvs)
      → (write_converted xts key v e n).0 ≡ ok tt
      → e ≢ unsupported
  unfolding write_converted
  write_converted_supported key v e n h is =
      cc (subst (λ (k : Encoding). (write_converted xts key v k n).0 ≡ ok tt) is h)

  write_entry_supported :
      (key : Str) (v : Option Value) (encoding : Option Str) (n : Nvs)
      → (write_entry xts key v encoding n).0 ≡ ok tt
      → (e : Str) × (encoding ≡ some e) × (to_encoding (lower e) ≢ unsupported)
  unfolding write_entry
  write_entry_supported key v none n h = cc
  write_entry_supported key v (some e) n h =
      let (converted, p, q) =
        >>=-eq-ok (lift (convert (to_encoding e) v))
          (λ w. write_converted xts key w (to_encoding (lower e))) n h in
      (e, refl, write_converted_supported key converted (to_encoding (lower e)) n q)

  module _ (files : Files) where
    write_row-Accepted :
        (row : Row) (n : Nvs) → (write_row xts files row n).0 ≡ ok tt → Accepted row
    unfolding write_row write_row_entry
    write_row-Accepted row n h =
        let written : Str → Action (Unit {0}) =
          λ key. write_row_entry xts files key row.datatype row.encoding row.value in
        let by_type : Str → Option Value → Action (Unit {0}) = λ key v.
          if is_type "namespace" row.datatype
          then write_namespace xts key
          else write_entry xts key v row.encoding in
        let (key, found, h₁) =
          >>=-eq-ok (lift (or_raise row.key type_error))
            (λ key.
              Monad.◌>>◌ (raise_if (ltb 15 (length key)) (input_error key_too_long)) (written key))
            n h in
        let (u, fits, h₂) =
          >>=-eq-ok (raise_if (ltb 15 (length key)) (input_error key_too_long)) (λ _. written key) n
            h₁ in
        let (v, read, h₃) =
          >>=-eq-ok (lift (row_value files (is_type "file" row.datatype) row.value)) (by_type key) n
            h₂ in
        record {
          key = key;
          has_key = or_raise-eq-ok row.key type_error found;
          short = ground (arith, fits);
          typed = by_branch (is_type "namespace" row.datatype) key v h₃;
        }
      where
        by_branch :
            (b : Bool) (key : Str) (v : Option Value)
            → ((if b then write_namespace xts key else write_entry xts key v row.encoding) n).0
              ≡ ok tt
            → (b ≡ true)
              ⊎ ((e : Str) × (row.encoding ≡ some e) × (to_encoding (lower e) ≢ unsupported))
        by_branch true key v h = inl refl
        by_branch false key v h = inr (write_entry_supported key v row.encoding n h)

    pub exit_on_input_error-ok :
        (m : Action (Unit {0})) (n : Nvs) → (exit_on_input_error m n).0 ≡ ok tt → (m n).0 ≡ ok tt
    unfolding exit_on_input_error exit_if_input_error
    exit_on_input_error-ok m n h = split (m n).0 h
      where
        split : (r : Result (Unit {0})) → exit_if_input_error r ≡ ok tt → r ≡ ok tt
        split (ok tt) h = refl
        split (err (input_error c)) h = cc
        split (err e) h = h

    write_rows-Accepted :
        (rows : List Row) (n : Nvs) → (write_rows xts files rows n).0 ≡ ok tt → All Accepted rows
    unfolding write_rows
    write_rows-Accepted [] n h = tt
    write_rows-Accepted (row ∷ rows) n h =
        let step = exit_on_input_error (write_row xts files row) in
        let (u, p, q) = >>=-eq-ok step (λ _. write_rows xts files rows) n h in
        (
          write_row-Accepted row n (exit_on_input_error-ok (write_row xts files row) n p),
          write_rows-Accepted rows (step n).1 q,
        )

-- An image is generated of accepted rows only: each has a key of at most 15 characters, and is a
-- namespace or has an encoding that is supported in lower case.
pub generate-Accepted :
    (xts : XtsAes) (files : Files) (generate_key : Result Bytes) (size output : Str) (version : ℕ)
    (on : Bool) (key : Option Bytes) (rows : List Row) {image : Bytes}
    → generate xts files generate_key size output version on key rows ≡ ok image
    → All Accepted rows
unfolding generate write_partition
generate-Accepted xts files generate_key size output version on key rows h =
    let (usable, p₁, h₁) = Exceptions.>>=-eq-ok (check_size size) _ h in
    let (u, p₂, h₂) =
      Exceptions.>>=-eq-ok (guard (is_bin_path output) (system_exit failure)) _ h₁ in
    let (k, p₀, h₀) = Exceptions.>>=-eq-ok (encryption_key on key generate_key) _ h₂ in
    let (n, p₃, h₃) = Exceptions.>>=-eq-ok (nvs_open usable (page_version version) on k) _ h₀ in
    let (w, p₄, h₄) = >>=-eq-ok (write_rows xts files rows) (λ _. nvs_close) n h₃ in
    write_rows-Accepted xts files rows n p₄
