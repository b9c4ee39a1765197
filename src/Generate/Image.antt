-- ===== src/Generate/Image.antt =====
-- The image that `generate` writes, and its size argument.
use pedge.Prelude.{
  All, ℕ, zero, suc, ◌+◌, ◌*◌, ◌^◌, ◌≤◌, ◌≡◌, ◌∙◌, refl, sym, ap, arith, length, List, Bool, Option,
  some, ℤ, pos, pos_part, inl, inr,
}
use pedge.Exceptions.{Result, ok, err, ok-injective, guard, system_exit, failure, >>=-eq-ok}
use pedge.Python.Bytes.{Bytes, Str}
use pedge.Python.Number.{int_base0}
use pedge.Cipher.{XtsAes, IsXtsAes}
use pedge.State.{Nvs}
use mathlib.Core.Path.{subst}
use pedge.Generate.Size.{Answer, check_size-Answer}
use pedge.Nvs.{new_nvs, opened, nvs_open, nvs_close}
use pedge.Nvs.Space.{Sound, create_new_page-ok}
use pedge.Nvs.Close.{nvs_close-ok}
use pedge.Entries.{Files}
use pedge.Generate.{
  Row, check_size, write_rows, write_partition, generate, encryption_key, page_version, is_bin_path,
}
use pedge.Generate.Rows.{FitsRow, write_rows-Safe}

-- A new object has one page, and the space of the others.
pub nvs_open-Sound :
    (left version : ℕ) (on : Bool) (key : Option Bytes) {n : Nvs}
    → suc left ≤ 2 ^ 32
    → nvs_open (pos (4096 * suc left)) version on key ≡ ok n
    → Sound (suc left) left n
unfolding nvs_open
nvs_open-Sound left version on key {n} h e =
    let fresh = new_nvs (pos (4096 * suc left)) version on key in
    let start : Sound (suc left) (suc left) fresh = record {
      size = refl;
      count = omega arith;
      page_num = refl;
      pages = tt;
      small = h;
    } in
    let (qs, closed, made, sound) = create_new_page-ok left start in
    subst (Sound (suc left) left) (ok-injective (sym (ap opened made) ∙ e)) sound

-- Whatever is written to a sound object, its image is the pages that there is space for and the
-- reserved page.
pub write_partition-length :
    (xts : XtsAes) (files : Files) (rows : List Row) (total left : ℕ) (n : Nvs) {image : Bytes}
    → IsXtsAes xts
    → All (FitsRow files) rows
    → Sound total left n
    → write_partition xts files rows n ≡ ok image
    → length image ≡ 4096 * (total + 1)
unfolding write_partition
write_partition-length xts files rows total left n laws fits s e =
    let (w, k) = write_rows-Safe xts laws files rows fits total left n s in
    closing (write_rows xts files rows n).0 w.left w.sound e
  where
    closing :
        (r : Result (Unit {0})) (left' : ℕ) {m : Nvs} {image : Bytes}
        → Sound total left' m
        → (let out : Result Bytes × Nvs = elim r [ ok a ↦ nvs_close m | err e ↦ (err e, m) ] in
            out.0 ≡ ok image)
        → length image ≡ 4096 * (total + 1)
    closing (ok a) left' {m} s' e' =
        let (m', done, c, kept, image) = nvs_close-ok total left' m s' in
        omega (
          arith,
          image.length_image,
          ap length (ok-injective (sym (ap (λ (out : Result Bytes × Nvs). out.0) done) ∙ e')),
        )
    closing (err x) left' s' e' = cc

ok-not_err : {A : Type 0} (c : Result A) {a : A} → c ≡ err (system_exit failure) → c ≡ ok a → ⊥
ok-not_err c e h = cc

-- What passes `check_size` is the size of whole pages, and what is left of it is a page less.
pub usable_size :
    (size : Str) (bytes : ℕ) {usable : ℤ}
    → int_base0 size ≡ some (pos bytes)
    → check_size size ≡ ok usable
    → (left : ℕ) × (usable ≡ pos (4096 * suc left)) × (bytes ≡ 4096 * (suc left + 1))
usable_size size bytes {usable} parsed checked =
    split (subst (λ (o : Option ℤ). Answer o (check_size size)) parsed (check_size-Answer size))
  where
    split :
        Answer (some (pos bytes)) (check_size size)
        → (left : ℕ) × (usable ≡ pos (4096 * suc left)) × (bytes ≡ 4096 * (suc left + 1))
    split (inl (zero, two, e, r)) = absurd (omega (arith, two))
    split (inl (suc left, two, e, r)) = (left, ok-injective (sym checked ∙ r), ap pos_part e)
    split (inr (h, r)) = absurd (ok-not_err (check_size size) r checked)

-- An image that `generate` returns is as long as the size argument says, whatever the rows hold,
-- if the size is at most 2 ^ 44 and the keys and the written texts are ASCII, those of strings read
-- from files too.
pub generate-length :
    (xts : XtsAes) (files : Files) (generate_key : Result Bytes) (size output : Str) (version : ℕ)
    (on : Bool) (key : Option Bytes) (rows : List Row) (bytes : ℕ) {image : Bytes}
    → IsXtsAes xts
    → All (FitsRow files) rows
    → int_base0 size ≡ some (pos bytes)
    → bytes ≤ 2 ^ 44
    → generate xts files generate_key size output version on key rows ≡ ok image
    → length image ≡ bytes
unfolding generate
generate-length xts files generate_key size output version on key rows bytes laws fits parsed small
      h =
    let (usable, p₁, h₁) = >>=-eq-ok (check_size size) _ h in
    let (u, p₂, h₂) = >>=-eq-ok (guard (is_bin_path output) (system_exit failure)) _ h₁ in
    let (k, p₀, h₀) = >>=-eq-ok (encryption_key on key generate_key) _ h₂ in
    let (n, p₃, h₃) = >>=-eq-ok (nvs_open usable (page_version version) on k) _ h₀ in
    let (left, e, whole) = usable_size size bytes parsed p₁ in
    let opened_at : nvs_open (pos (4096 * suc left)) (page_version version) on k ≡ ok n =
      rw e at p₃ in
    omega (
      arith,
      write_partition-length xts files rows (suc left) left n laws fits
          (nvs_open-Sound left (page_version version) on k (omega (arith, whole)) opened_at) h₃,
      whole,
    )
