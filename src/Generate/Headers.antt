-- ===== src/Generate/Headers.antt =====
-- The headers of the pages in the image that `generate` writes.
use pedge.Prelude.{
  All, ℕ, suc, ◌+◌, ◌-◌, ◌*◌, ◌^◌, ◌≤◌, ◌<◌, ◌≡◌, ◌∙◌, ◌⊎◌, inl, inr, refl, sym, ap, arith, List,
  [], ◌∷◌, ◌++◌, length, get_or, reverse, Bool, Option, some, pos, take, drop, length-append,
  length-reverse, drop-drop, drop-append_eq, get_or-append_left, get_or-append_right, append-nil,
}
use mathlib.Core.Path.{subst}
use mathlib.Core.List.{reverse-append}
use native.Mathlib.Decide.{dec_lt}
use pedge.Exceptions.{Result, ok, ok-injective, guard, system_exit, failure, >>=-eq-ok}
use pedge.Python.Bytes.{Bytes, Str, slice, erased}
use pedge.Python.Number.{int_base0}
use pedge.Python.Slices.{slice_alike}
use pedge.Python.Struct.{le_bytes, from_le}
use pedge.Cipher.{XtsAes, IsXtsAes}
use pedge.State.{Page, Nvs}
use pedge.Page.{checksum}
use pedge.Page.Bitmap.{IsValid}
use pedge.Nvs.{new_nvs, opened, nvs_open, nvs_close, join_pages}
use pedge.Nvs.Monad.{>>=_lem}
use pedge.Nvs.Space.{Sound, create_new_page-ok}
use pedge.Nvs.Reach.{here, next, grow, Reach-trans}
use pedge.Nvs.Close.{
  nvs_close-ClosedFrom, get_binary_data-IsImage, length-join_pages, join_pages-append, All-IsWhole,
  All-reverse, IsWhole,
}
use pedge.Nvs.Headers.{IsVersion, HasHeader, Numbered, Reach-Numbered, ClosedHead-Numbered}
use pedge.Entries.{Files}
use pedge.Generate.{
  Row, check_size, encryption_key, write_rows, write_partition, generate, page_version, is_bin_path,
}
use pedge.Generate.Rows.{FitsRow, write_rows-Safe}
use pedge.Generate.Image.{nvs_open-Sound, usable_size}

-- The header of the page number `k` of an image: its number, the version, and the checksum of all but
-- the state and itself.
pub record HeaderIn (image : Bytes) (v k : ℕ) : Type 0 where
  pub number : slice (4096 * k + 4) (4096 * k + 8) image ≡ le_bytes 4 k
  pub version : get_or image (4096 * k + 8) 0 ≡ v
  pub sum :
      from_le (slice (4096 * k + 28) (4096 * k + 32) image)
      ≡ checksum (slice (4096 * k + 4) (4096 * k + 28) image)

HeaderIn-append :
    (xs ys : Bytes) (v k : ℕ)
    → 4096 * (k + 1) ≤ length xs
    → HeaderIn xs v k
    → HeaderIn (xs ++ ys) v k
HeaderIn-append xs ys v k inside h =
    let part = λ (a b : ℕ) (high : b ≤ 4096 * k + 32).
      slice_alike xs (xs ++ ys) a b (omega (arith, inside, high))
        (omega (arith, inside, high, length-append xs ys))
        λ j low below. get_or-append_left xs ys j 0 (omega (arith, inside, high, below)) in
    record {
      number = part (4096 * k + 4) (4096 * k + 8) (omega arith) ∙ h.number;
      version = get_or-append_left xs ys (4096 * k + 8) 0 (omega (arith, inside)) ∙ h.version;
      sum =
          ap from_le (part (4096 * k + 28) (4096 * k + 32) (omega arith))
          ∙ h.sum
          ∙ ap checksum (sym (part (4096 * k + 4) (4096 * k + 28) (omega arith)));
    }

-- What stands after some bytes.
slice-append_right :
    (xs ys : Bytes) (n a b : ℕ) → length xs ≡ n → slice (n + a) (n + b) (xs ++ ys) ≡ slice a b ys
slice-append_right xs ys n a b len =
    ap (λ (k : ℕ). take k (drop (n + a) (xs ++ ys))) {x = n + b - (n + a)} {y = b - a} (omega arith)
    ∙ ap (take (b - a)) (sym (drop-drop n a (xs ++ ys)) ∙ ap (drop a) (drop-append_eq n xs ys len))

-- The page that stands at the end of some bytes.
HeaderIn-last :
    (xs : Bytes) (p : Page) (v k : ℕ)
    → length xs ≡ 4096 * k
    → HasHeader k v p
    → HeaderIn (xs ++ p.page_buf) v k
HeaderIn-last xs p v k len h =
    let part = λ (a b : ℕ). slice-append_right xs p.page_buf (4096 * k) a b len in
    record {
      number = part 4 8 ∙ h.number;
      version =
          get_or-append_right xs p.page_buf (4096 * k + 8) 8 0 (omega (arith, len)) ∙ h.version;
      sum = ap from_le (part 28 32) ∙ h.sum ∙ ap checksum (sym (part 4 28));
    }

-- Every page stands in the joined pages under its number.
Numbered-HeaderIn :
    (v : ℕ) (ps : List Page) (k : ℕ)
    → Numbered v ps
    → All IsValid ps
    → k < length ps
    → HeaderIn (join_pages (reverse ps)) v k
Numbered-HeaderIn v [] k h valid lt = absurd (omega arith)
Numbered-HeaderIn v (p ∷ ps) k h valid lt =
    let before = join_pages (reverse ps) in
    let len : length before ≡ 4096 * length ps = omega (
      arith,
      length-join_pages (reverse ps) (All-reverse IsWhole ps (All-IsWhole ps valid.1)),
      length-reverse ps,
    ) in
    let last : join_pages (p ∷ []) ≡ p.page_buf = unfold join_pages in (append-nil p.page_buf) in
    let split : join_pages (reverse (p ∷ ps)) ≡ before ++ p.page_buf =
      ap join_pages (reverse-append (p ∷ []) ps)
      ∙ join_pages-append (reverse ps) (p ∷ [])
      ∙ ap (λ bs. before ++ bs) last in
    subst (λ (bs : Bytes). HeaderIn bs v k) (sym split)
      (elim (dec_lt k (length ps)) [
        | yes below ↦
            HeaderIn-append before p.page_buf v k (omega (arith, len, below))
              (Numbered-HeaderIn v ps k h.1 valid.1 below)
        | no above ↦
            let is : length ps ≡ k = omega (arith, lt, above) in
            HeaderIn-last before p v k (omega (arith, len, is))
              (subst (λ (n : ℕ). HasHeader n v p) is h.0.1)
      ])

abbrev IsVersionArgument : ℕ → Type 0
IsVersionArgument version = (version ≡ 1) ⊎ (version ≡ 2)

page_version-IsVersion :
    (version : ℕ) → IsVersionArgument version → IsVersion (page_version version)
unfolding page_version
page_version-IsVersion version (inl e) = rw e (inl refl)
page_version-IsVersion version (inr e) = rw e (inr refl)

-- A new object was reached from one without a page.
nvs_open-Numbered :
    (left v : ℕ) (on : Bool) (key : Option Bytes) {n : Nvs}
    → IsVersion v
    → suc left ≤ 2 ^ 32
    → nvs_open (pos (4096 * suc left)) v on key ≡ ok n
    → (n.version ≡ v) × Numbered v n.pages
unfolding nvs_open
nvs_open-Numbered left v on key {n} is h e =
    let fresh = new_nvs (pos (4096 * suc left)) v on key in
    let start : Sound (suc left) (suc left) fresh = record {
      size = refl;
      count = omega arith;
      page_num = refl;
      pages = tt;
      small = h;
    } in
    let (qs, closed, made, sound) = create_new_page-ok left start in
    subst (λ (m : Nvs). (m.version ≡ v) × Numbered v m.pages)
      (ok-injective (sym (ap opened made) ∙ e))
      (Reach-Numbered v is refl tt (next here (grow left qs refl closed)))

write_partition-HeaderIn :
    (xts : XtsAes) (files : Files) (rows : List Row) (total left v : ℕ) (n : Nvs) {image : Bytes}
    → IsXtsAes xts
    → All (FitsRow files) rows
    → Sound total left n
    → IsVersion v
    → (n.version ≡ v) × Numbered v n.pages
    → write_partition xts files rows n ≡ ok image
    → (k : ℕ) → k < total
    → HeaderIn image v k
unfolding write_partition
write_partition-HeaderIn xts files rows total left v n {image} laws fits s is start e k lt =
    let (u, ran, both) = >>=_lem (write_rows xts files rows) (λ _. nvs_close) n e in
    let n' = (write_rows xts files rows n).1 in
    let (w, any) = write_rows-Safe xts laws files rows fits total left n s in
    let (m, done, c, from) = nvs_close-ClosedFrom total w.left n' w.sound in
    let is_image = get_binary_data-IsImage total m c in
    let written : _ ≡ image = ok-injective (
      sym (ap (λ (out : Result Bytes × Nvs). out.0) done)
      ∙ ap (λ (out : Result Bytes × Nvs). out.0) (sym both)
      ∙ e) in
    let (same, old) = Reach-Numbered v is start.0 start.1 (Reach-trans w.path from.path) in
    let (numbered, len) = ClosedHead-Numbered v from.last.pages c.older from.head old in
    let pages = join_pages (reverse c.older) in
    let len_pages : length pages ≡ 4096 * total = omega (
      arith,
      length-join_pages (reverse c.older)
          (All-reverse IsWhole c.older (All-IsWhole c.older c.valid)),
      length-reverse c.older,
      c.count,
    ) in
    subst (λ (bs : Bytes). HeaderIn bs v k) (sym is_image.layout ∙ written)
      (HeaderIn-append pages (erased 4096) v k (omega (arith, len_pages, lt))
        (Numbered-HeaderIn v c.older k numbered c.valid (omega (arith, lt, c.count))))

-- In an image that `generate` returns, in the clear or encrypted, every page but the last, which is
-- reserved, has a header with its number, the version that was asked for, and the checksum of the
-- header but for its state, if the version is 1 or 2, the size at most 2 ^ 44 and the keys and the
-- written texts are ASCII, those of strings read from files too.
pub generate-HeaderIn :
    (xts : XtsAes) (files : Files) (generate_key : Result Bytes) (size output : Str) (version : ℕ)
    (on : Bool) (key : Option Bytes) (rows : List Row) (bytes k : ℕ) {image : Bytes}
    → IsXtsAes xts
    → All (FitsRow files) rows
    → IsVersionArgument version
    → int_base0 size ≡ some (pos bytes)
    → bytes ≤ 2 ^ 44
    → 4096 * (k + 2) ≤ bytes
    → generate xts files generate_key size output version on key rows ≡ ok image
    → HeaderIn image (page_version version) k
unfolding generate
generate-HeaderIn xts files generate_key size output version on key rows bytes k laws fits is parsed
      small inside h =
    let (usable, p₁, h₁) = >>=-eq-ok (check_size size) _ h in
    let (u, p₂, h₂) = >>=-eq-ok (guard (is_bin_path output) (system_exit failure)) _ h₁ in
    let (used, p₀, h₀) = >>=-eq-ok (encryption_key on key generate_key) _ h₂ in
    let (n, p₃, h₃) = >>=-eq-ok (nvs_open usable (page_version version) on used) _ h₀ in
    let (left, e, whole) = usable_size size bytes parsed p₁ in
    let opened_at : nvs_open (pos (4096 * suc left)) (page_version version) on used ≡ ok n =
      rw e at p₃ in
    let fits_size : suc left ≤ 2 ^ 32 = omega (arith, whole, small) in
    let is_version = page_version-IsVersion version is in
    write_partition-HeaderIn xts files rows (suc left) left (page_version version) n laws fits
      (nvs_open-Sound left (page_version version) on used fits_size opened_at) is_version
      (nvs_open-Numbered left (page_version version) on used is_version fits_size opened_at) h₃ k
      (omega (arith, whole, inside))
