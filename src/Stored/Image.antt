-- ===== src/Stored/Image.antt =====
-- An image in the clear holds every row that it was generated from.
use pedge.Prelude.{
  All, ℕ, suc, ◌*◌, ◌^◌, ◌≤◌, ◌≡◌, ◌∙◌, refl, sym, ap, arith, List, false, Option, some, pos,
}
use mathlib.Core.Path.{subst}
use pedge.Exceptions.{Result, ok, ok-injective, guard, system_exit, failure, >>=-eq-ok}
use pedge.Python.Bytes.{Bytes, Str}
use pedge.Python.Number.{int_base0}
use pedge.Cipher.{XtsAes, IsXtsAes}
use pedge.State.{Nvs}
use pedge.Nvs.{new_nvs, opened, nvs_open, nvs_close}
use pedge.Nvs.Monad.{>>=_lem}
use pedge.Nvs.Space.{Sound, with_new_page, create_new_page-ok}
use pedge.Nvs.Close.{nvs_close-ok}
use pedge.Entries.{Files}
use pedge.Generate.{
  Row, check_size, write_rows, write_partition, generate, page_version, is_bin_path,
}
use pedge.Generate.Rows.{FitsRow, write_rows-Safe}
use pedge.Generate.Image.{nvs_open-Sound, usable_size}
use pedge.Stored.Held.{Holds, Kept-Holds, InImage, IsImage-InImage}
use pedge.Stored.Rows.{RowsThere, RowsThere-map}
use pedge.Stored.Partition.{write_rows-RowsThere}

-- A new object in the clear has counted no namespace.
nvs_open_clear :
    (left version : ℕ) (key : Option Bytes) {n : Nvs}
    → suc left ≤ 2 ^ 32
    → nvs_open (pos (4096 * suc left)) version false key ≡ ok n
    → (n.encrypt ≡ false) × (n.namespace_idx ≡ 0)
unfolding nvs_open
nvs_open_clear left version key {n} h e =
    let fresh = new_nvs (pos (4096 * suc left)) version false key in
    let start : Sound (suc left) (suc left) fresh = record {
      size = refl;
      count = omega arith;
      page_num = refl;
      pages = tt;
      small = h;
    } in
    let (qs, closed, made, sound) = create_new_page-ok left start in
    let same : with_new_page left qs fresh ≡ n = ok-injective (sym (ap opened made) ∙ e) in
    subst (λ (m : Nvs). (m.encrypt ≡ false) × (m.namespace_idx ≡ 0)) same
      (unfold with_new_page new_nvs in (refl, refl))

write_partition-RowsThere :
    (xts : XtsAes) (files : Files) (rows : List Row) (total left : ℕ) (n : Nvs) {image : Bytes}
    → IsXtsAes xts
    → All (FitsRow files) rows
    → Sound total left n
    → n.encrypt ≡ false
    → write_partition xts files rows n ≡ ok image
    → RowsThere (λ bs. InImage bs image) files n.namespace_idx rows
unfolding write_partition
write_partition-RowsThere xts files rows total left n {image} laws fits s clear e =
    let (u, ran, both) = >>=_lem (write_rows xts files rows) (λ _. nvs_close) n e in
    let n' = (write_rows xts files rows n).1 in
    let (w, k) = write_rows-Safe xts laws files rows fits total left n s in
    let (m, done, c, kept, is) = nvs_close-ok total w.left n' w.sound in
    let written : _ ≡ image = ok-injective (
      sym (ap (λ (out : Result Bytes × Nvs). out.0) done)
      ∙ ap (λ (out : Result Bytes × Nvs). out.0) (sym both)
      ∙ e) in
    subst (λ (bytes : Bytes). RowsThere (λ bs. InImage bs bytes) files n.namespace_idx rows) written
      (RowsThere-map (λ bs. Holds bs n'.pages) (λ bs. InImage bs _)
        (λ bs held. IsImage-InImage bs total c.older c.valid is (Kept-Holds bs kept held)) files
        n.namespace_idx rows
        (write_rows-RowsThere xts laws files rows total left n fits s clear ran))

-- An image that `generate` returns in the clear holds the entry of every row that is no blob, with
-- the layout of the format and its checksums: a namespace under the next index, a number in its format
-- and a string with its data under the index of the namespace before it, if the size is at most 2 ^ 44
-- and the keys and the written texts are ASCII, those of strings read from files too.
pub generate-RowsThere :
    (xts : XtsAes) (files : Files) (generate_key : Result Bytes) (size output : Str) (version : ℕ)
    (key : Option Bytes) (rows : List Row) (bytes : ℕ) {image : Bytes}
    → IsXtsAes xts
    → All (FitsRow files) rows
    → int_base0 size ≡ some (pos bytes)
    → bytes ≤ 2 ^ 44
    → generate xts files generate_key size output version false key rows ≡ ok image
    → RowsThere (λ bs. InImage bs image) files 0 rows
unfolding generate
generate-RowsThere xts files generate_key size output version key rows bytes {image} laws fits
      parsed small h =
    let (usable, p₁, h₁) = >>=-eq-ok (check_size size) _ h in
    let (u, p₂, h₂) = >>=-eq-ok (guard (is_bin_path output) (system_exit failure)) _ h₁ in
    let (n, p₃, h₃) = >>=-eq-ok (nvs_open usable (page_version version) false key) _ h₂ in
    let (left, e, whole) = usable_size size bytes parsed p₁ in
    let opened_at : nvs_open (pos (4096 * suc left)) (page_version version) false key ≡ ok n =
      rw e at p₃ in
    let fits_size : suc left ≤ 2 ^ 32 = omega (arith, whole) in
    let (clear, none_yet) = nvs_open_clear left (page_version version) key fits_size opened_at in
    subst (λ (ns : ℕ). RowsThere (λ bs. InImage bs image) files ns rows) none_yet
      (write_partition-RowsThere xts files rows (suc left) left n laws fits
        (nvs_open-Sound left (page_version version) false key fits_size opened_at) clear h₃)
