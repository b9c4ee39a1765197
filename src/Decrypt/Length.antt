-- ===== src/Decrypt/Length.antt =====
-- The lengths of what `decrypt_data` and the loop of `decrypt` return.
use pedge.Prelude.{
  All, ℕ, zero, suc, ◌+◌, ◌*◌, ◌≤◌, ◌≡◌, ◌∙◌, refl, sym, ap, arith, List, [], ◌∷◌, ◌&&◌, not, Bool,
  true, false, ltb, ◌==◌, take, drop, length, length-append, length-take, length-drop,
  if◌then◌else◌, Bool-cases, inl, inr,
}
use mathlib.Core.Path.{subst}
use pedge.Exceptions
use pedge.Exceptions.{
  Result, ok, or_raise-eq-ok, value_error, system_exit, failure, guard, >>=-eq-ok, ok-injective,
}
use pedge.Python.Bytes.{Bytes, Str, set_slice, set_slice_append, erased}
use pedge.Python.Hex.Laws.{length-hexlify, length-unhex}
use pedge.Python.Hex.{hexlify, unhex}
use pedge.Cipher.{XtsAes, IsXtsAes}
use pedge.State.{str_eq}
use pedge.Page.Crypt.{tweak_val}
use pedge.Generate.{is_bin_path}
use pedge.Decrypt.{
  Progress, start, turn_page, store_entry, read_entries, decrypt_data, decrypt_entry,
  decrypt_entries, decrypt,
}

total : List Bytes → ℕ
total [] = 0
total (e ∷ es) = length e + total es

-- The output so far ends where the next entry goes, or is the single byte that it began with.
abbrev Fits : ℕ → Progress → Type 0
Fits n p = (length p.output_buf ≡ n) × (n ≤ p.start_entry_offset)

store_entry-Fits :
    (n : ℕ) (e : Bytes) (p : Progress)
    → Fits n p
    → length e ≤ 32
    → Fits (n + length e) (store_entry e p)
unfolding store_entry
store_entry-Fits n e p f small =
    let start_idx = p.start_entry_offset + (p.page_num * 4096 + p.file_entry_no) * 32 in
    (
      ap length (set_slice_append p.output_buf start_idx 32 e (omega (arith, f.0, f.1)))
          ∙ length-append p.output_buf e
          ∙ omega (arith, f.0),
      omega (arith, f.1),
    )

turn_page-Fits : (n : ℕ) (p : Progress) → Fits n p → Fits n (turn_page p)
unfolding turn_page
turn_page-Fits n p f = elim (Bool-cases (p.file_entry_no == 128)) [
  | inl e ↦ rw e f
  | inr e ↦ rw e f
]

read_entries-total :
    (fuel : ℕ) (image : Bytes)
    → length image ≤ fuel
    → (total (read_entries fuel image) ≡ length image)
      × All (λ e. length e ≤ 32) (read_entries fuel image)
unfolding read_entries total
read_entries-total zero [] h = (refl, tt)
read_entries-total zero (b ∷ bs) h = absurd (omega arith)
read_entries-total (suc fuel) [] h = (refl, tt)
read_entries-total (suc fuel) (b ∷ bs) h =
    let rest = drop 32 (b ∷ bs) in
    let rec = read_entries-total fuel rest (omega (arith, length-drop 32 (b ∷ bs))) in
    (
      omega (arith, rec.0, length-drop 32 (b ∷ bs), length-take 32 (b ∷ bs)),
      (omega (arith, length-take 32 (b ∷ bs)), rec.1),
    )

module _ (xts : XtsAes) (laws : IsXtsAes xts) (key : Bytes) where
  length-decrypt_data :
      (e : Bytes) (page_num entry_no : ℕ) {d : Bytes}
      → decrypt_data xts e key page_num entry_no 32 ≡ ok d
      → length d ≡ length e
  unfolding decrypt_data
  length-decrypt_data e page_num entry_no h =
      let (cipher, p₁, h₁) = >>=-eq-ok (unhex (hexlify e)) _ h in
      let (tweak, p₂, h₂) = >>=-eq-ok (unhex (tweak_val _)) _ h₁ in
      omega (
        arith,
        laws.length-decryptor key tweak cipher (or_raise-eq-ok _ value_error h₂),
        length-unhex (hexlify e) p₁,
        length-hexlify e,
      )

  decrypt_entry-Fits :
      (n : ℕ) (e : Bytes) (p : Progress) {q : Progress}
      → Fits n p
      → length e ≤ 32
      → decrypt_entry xts key e p ≡ ok q
      → Fits (n + length e) q
  unfolding decrypt_entry
  decrypt_entry-Fits n e p f small h = split (not (str_eq e (erased 32)) && ltb 1 p.file_entry_no) h
    where
      counted : Progress
      counted = record p { decrypted_entry_no = p.decrypted_entry_no + 1 }

      split :
          (b : Bool) {q : Progress}
          → (if b
              then Exceptions.◌>>=◌
                  (decrypt_data xts e key p.page_num p.decrypted_entry_no 32)
                  (λ d. ok (store_entry d counted))
              else ok (store_entry e p))
            ≡ ok q
          → Fits (n + length e) q
      split true h =
          let (d, p₁, h₁) =
            >>=-eq-ok (decrypt_data xts e key p.page_num p.decrypted_entry_no 32) _ h in
          let len = length-decrypt_data e p.page_num p.decrypted_entry_no p₁ in
          subst (λ (r : Progress). Fits (n + length e) r) (ok-injective h₁)
            (subst (λ k. Fits (n + k) (store_entry d counted)) len
              (store_entry-Fits n d counted f (omega (arith, len))))
      split false h =
          subst (λ (r : Progress). Fits (n + length e) r) (ok-injective h)
            (store_entry-Fits n e p f small)

  decrypt_entries-length :
      (es : List Bytes) (n : ℕ) (p : Progress) {out : Bytes}
      → Fits n p
      → All (λ e. length e ≤ 32) es
      → decrypt_entries xts key es p ≡ ok out
      → length out ≡ n + total es
  unfolding decrypt_entries total
  decrypt_entries-length [] n p f small h = omega (arith, f.0, ap length (ok-injective h))
  decrypt_entries-length (e ∷ es) n p f small h =
      let (q, p₁, h₁) = >>=-eq-ok (decrypt_entry xts key e (turn_page p)) _ h in
      let f' = decrypt_entry-Fits n e (turn_page p) (turn_page-Fits n p f) small.0 p₁ in
      omega (arith, decrypt_entries-length es (n + length e) q f' small.1 h₁)

  -- The first entry takes the place of the byte that the output began with.
  first_entry :
      (e : Bytes)
      → length e ≤ 32
      → (decrypt_entry xts key e (turn_page start) ≡ ok (store_entry e start))
        × Fits (length e) (store_entry e start)
  unfolding decrypt_entry turn_page store_entry set_slice
  first_entry e small = (ground arith, (omega (arith, length-append e []), small))

  decrypt_entries-start :
      (es : List Bytes) {out : Bytes}
      → All (λ e. length e ≤ 32) es
      → 1 ≤ total es
      → decrypt_entries xts key es start ≡ ok out
      → length out ≡ total es
  unfolding decrypt_entries total
  decrypt_entries-start [] small one h = absurd (omega arith)
  decrypt_entries-start (e ∷ es) small one h =
      let (q, p₁, h₁) = >>=-eq-ok (decrypt_entry xts key e (turn_page start)) _ h in
      let (done, f) = first_entry e small.0 in
      decrypt_entries-length es (length e) q
        (subst (λ (r : Progress). Fits (length e) r) (ok-injective (sym done ∙ p₁)) f) small.1 h₁

-- `decrypt`, if it returns for an image that is not empty, returns one of the same length.
pub decrypt-length :
    (xts : XtsAes) (input key output : Str) (key_file image : Bytes) {out : Bytes}
    → IsXtsAes xts
    → 1 ≤ length image
    → decrypt xts input key output key_file image ≡ ok out
    → length out ≡ length image
unfolding decrypt
decrypt-length xts input key output key_file image {out} laws some_byte h =
    let (u₁, p₁, h₁) = >>=-eq-ok (guard (is_bin_path input) (system_exit failure)) _ h in
    let (u₂, p₂, h₂) = >>=-eq-ok (guard (is_bin_path key) (system_exit failure)) _ h₁ in
    let (u₃, p₃, h₃) = >>=-eq-ok (guard (is_bin_path output) (system_exit failure)) _ h₂ in
    let (sum, small) = read_entries-total (length image) image (omega arith) in
    decrypt_entries-start xts laws (take 64 key_file) (read_entries (length image) image) small
      (omega (arith, sum)) h₃
    ∙ sum
