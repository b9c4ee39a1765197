-- ===== src/Entries/Frame.antt =====
-- What counts the namespaces: of the methods that write entries only `write_namespace` does.
use pedge.Prelude.{
  ℕ, zero, suc, ◌+◌, ◌-◌, ◌≡◌, ◌∙◌, refl, arith, Bool, true, false, ◌&&◌, ◌||◌, not, ltb, ◌==◌,
  Option, none, some, ℤ, pos, if◌then◌else◌,
}
use pedge.Exceptions.{
  Result, ok, err, or_raise, type_error, page_full_error, assertion_error, out_of_fuel,
}
use pedge.Python.Bytes.{Bytes, Str}
use pedge.Cipher.{XtsAes}
use pedge.State.{
  Page, Nvs, Value, Encoding, u8, unsupported, to_encoding, version2, max_entries,
  single_entry_size,
}
use pedge.Nvs.{create_new_page}
use pedge.Nvs.Monad.{Action, lift, raise, raise_if, pure, cur_page, on_cur_page, ◌>>=◌}
use pedge.Varlen.{
  blob_next, blob_turn, blob_round, blob_loop, write_varlen_binary_data, write_by_kind,
  write_varlen_on, write_varlen_data, tailroom, chunk_size,
}
use pedge.Varlen.Headers.{
  is_blob, is_string, write_chunk, write_index, slice_value, value_length, entries_for,
  write_single_page_entry, varlen_header, check_varlen,
}
use pedge.Entries.{
  retry, or_on_new_page, write_primitive, write_namespace, write_supported, write_converted,
  write_entry, convert, int_value, lower,
}

-- An action that counts no namespace.
abbrev pub Frames : {A : Type 0} → Action A → Type 0
Frames m = (n : Nvs) → (m n).1.namespace_idx ≡ n.namespace_idx

Frames->>= :
    {A B : Type 0} (m : Action A) (f : A → Action B)
    → Frames m
    → ((a : A) → Frames (f a))
    → Frames (m >>= f)
Frames->>= {A} {B} m f hm hf n = split (m n) (hm n)
  where
    split :
        (r : Result A × Nvs)
        → r.1.namespace_idx ≡ n.namespace_idx
        → (let both : Result B × Nvs = elim r.0 [ ok a ↦ f a r.1 | err e ↦ (err e, r.1) ] in
            both.1.namespace_idx ≡ n.namespace_idx)
    split (ok a, n') e = hf a n' ∙ e
    split (err x, n') e = e

create_new_page-Frames : (b : Bool) → Frames (create_new_page b)
unfolding create_new_page
create_new_page-Frames b n = ground arith

on_cur_page-Frames : {A : Type 0} (f : Nvs → Page → Result (A × Page)) → Frames (on_cur_page f)
on_cur_page-Frames f n = ground arith

or_on_new_page-Frames : (m : Action (Unit {0})) → Frames m → Frames (or_on_new_page m)
unfolding or_on_new_page retry
or_on_new_page-Frames m h n = again (m n).0 (m n).1 (h n)
  where
    again :
        (r : Result (Unit {0})) (n' : Nvs)
        → n'.namespace_idx ≡ n.namespace_idx
        → (retry m r n').1.namespace_idx ≡ n.namespace_idx
    again (err page_full_error) n' e =
        Frames->>= (create_new_page false) (λ _. m) (create_new_page-Frames false) (λ _. h) n' ∙ e
    again (ok u) n' e = e
    again (err x) n' e = e

module _ (xts : XtsAes) where
  module _ (v : Value) (data_size : ℕ) (again : Bytes → ℕ → ℕ → ℕ → Action (Unit {0}))
      (later : (es : Bytes) (count offset remaining : ℕ)
        → Frames (again es count offset remaining)) where
    blob_next-Frames :
        (es : Bytes) (count offset remaining : ℕ)
        → Frames (blob_next xts v data_size again es count offset remaining)
    unfolding blob_next
    blob_next-Frames es count offset remaining = split (remaining == 0)
      where
        split :
            (b : Bool)
            → Frames (elim b [
              | true ↦ on_cur_page (write_index xts es data_size count)
              | false ↦ again es count offset remaining
            ])
        split true = on_cur_page-Frames (write_index xts es data_size count)
        split false = later es count offset remaining

    blob_turn-Frames :
        (count offset room size remaining : ℕ) (es : Bytes)
        → Frames (blob_turn xts v data_size again count offset room size remaining es)
    unfolding blob_turn
    blob_turn-Frames count offset room size remaining es =
        Frames->>= (turn (not (remaining == 0) || ltb (room - size) single_entry_size)) (λ _. rest)
          (turn-Frames (not (remaining == 0) || ltb (room - size) single_entry_size))
          λ _. blob_next-Frames es (count + 1) (offset + size) remaining
      where
        rest : Action (Unit {0})
        rest = blob_next xts v data_size again es (count + 1) (offset + size) remaining

        turn : Bool → Action (Unit {0})
        turn b = if b then create_new_page false else pure tt

        turn-Frames : (b : Bool) → Frames (turn b)
        turn-Frames true = create_new_page-Frames false
        turn-Frames false = λ n. refl

    blob_round-Frames :
        (es : Bytes) (count offset remaining : ℕ) (self : Page)
        → Frames (blob_round xts v data_size again es count offset remaining self)
    unfolding blob_round
    blob_round-Frames es count offset remaining self =
        let room = tailroom self in
        let size = chunk_size room remaining in
        let chunk : Nvs → Page → Result (Bytes × Page) =
          write_chunk xts es count (slice_value offset (offset + size) v) size in
        let turn = blob_turn xts v data_size again count offset room size (remaining - size) in
        Frames->>= (raise_if (ltb max_entries (self.entry_num + 1)) assertion_error)
          (λ _. on_cur_page chunk >>= turn) (λ n. refl)
          λ _.
            Frames->>= (on_cur_page chunk) turn (on_cur_page-Frames chunk)
              (blob_turn-Frames count offset room size (remaining - size))

  blob_loop-Frames :
      (fuel : ℕ) (v : Value) (data_size : ℕ) (es : Bytes) (count offset remaining : ℕ)
      → Frames (blob_loop xts (raise out_of_fuel) fuel v data_size es count offset remaining)
  unfolding blob_loop
  blob_loop-Frames zero v data_size es count offset remaining = λ n. refl
  blob_loop-Frames (suc fuel) v data_size es count offset remaining =
      let again = blob_loop xts (raise out_of_fuel) fuel v data_size in
      Frames->>= cur_page (blob_round xts v data_size again es count offset remaining) (λ n. refl)
        (blob_round-Frames v data_size again (blob_loop-Frames fuel v data_size) es count offset
          remaining)

  write_varlen_data-Frames :
      (key : Str) (v : Value) (e : Encoding) (ns : ℕ) → Frames (write_varlen_data xts key v e ns)
  unfolding write_varlen_data write_varlen_on write_by_kind write_varlen_binary_data
  write_varlen_data-Frames key v e ns =
      Frames->>= cur_page (write_varlen_on xts key v e ns) (λ n. refl)
        λ self.
          let header = varlen_header self.version key (entries_for (value_length v)) e ns in
          Frames->>= (lift (check_varlen self v e))
            (λ _. lift header >>= write_by_kind xts v e self) (λ n. refl)
            λ _.
              Frames->>= (lift header) (write_by_kind xts v e self) (λ n. refl)
                λ es. split (self.version == version2 && is_blob e) es
    where
      size : ℕ
      size = value_length v

      split :
          (b : Bool) (es : Bytes)
          → Frames (
              if b
              then write_varlen_binary_data xts es v size
              else on_cur_page (write_single_page_entry xts es v size (entries_for size)))
      split true es = blob_loop-Frames (size + 2) v size es 0 0 size
      split false es = on_cur_page-Frames (write_single_page_entry xts es v size (entries_for size))

  write_primitive-Frames :
      (key : Str) (v : ℤ) (e : Encoding) (ns : ℕ) → Frames (write_primitive xts key v e ns)
  unfolding write_primitive
  write_primitive-Frames key v e ns n = ground arith

  write_supported-Frames :
      (key : Str) (v : Option Value) (e : Encoding) (ns : ℕ)
      → Frames (write_supported xts key v e ns)
  unfolding write_supported
  write_supported-Frames key v e ns = split (is_string e || is_blob e)
    where
      varlen : Value → Action (Unit {0})
      varlen w = or_on_new_page (write_varlen_data xts key w e ns)

      single : ℤ → Action (Unit {0})
      single i = or_on_new_page (write_primitive xts key i e ns)

      split :
          (b : Bool)
          → Frames (
              if b
              then (lift (or_raise v type_error) >>= varlen)
              else (lift (int_value v) >>= single))
      split true =
          Frames->>= (lift (or_raise v type_error)) varlen (λ n. refl)
            λ w.
              or_on_new_page-Frames (write_varlen_data xts key w e ns)
                (write_varlen_data-Frames key w e ns)
      split false =
          Frames->>= (lift (int_value v)) single (λ n. refl)
            λ i.
              or_on_new_page-Frames (write_primitive xts key i e ns)
                (write_primitive-Frames key i e ns)

  write_converted-Frames :
      (key : Str) (v : Option Value) (e : Encoding) → Frames (write_converted xts key v e)
  unfolding write_converted
  write_converted-Frames key v unsupported n = refl
  write_converted-Frames key v e n = write_supported-Frames key v e n.namespace_idx n

  -- `NVS.write_entry` counts no namespace, whatever becomes of it.
  pub write_entry-Frames :
      (key : Str) (v : Option Value) (encoding : Option Str)
      → Frames (write_entry xts key v encoding)
  unfolding write_entry
  write_entry-Frames key v none = λ n. refl
  write_entry-Frames key v (some encoding) =
      Frames->>= (lift (convert (to_encoding encoding) v))
        (λ w. write_converted xts key w (to_encoding (lower encoding))) (λ n. refl)
        (λ w. write_converted-Frames key w (to_encoding (lower encoding)))

  -- `NVS.write_namespace` counts one, whatever becomes of it.
  pub write_namespace-counts :
      (key : Str) (n : Nvs) → (write_namespace xts key n).1.namespace_idx ≡ n.namespace_idx + 1
  unfolding write_namespace
  write_namespace-counts key n =
      or_on_new_page-Frames (write_primitive xts key (pos (n.namespace_idx + 1)) u8 0)
        (write_primitive-Frames key (pos (n.namespace_idx + 1)) u8 0)
        (record n { namespace_idx = n.namespace_idx + 1 })
