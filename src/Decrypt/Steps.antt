-- ===== src/Decrypt/Steps.antt =====
-- The rounds of the loop of `decrypt` on the pages of an image.
use pedge.Prelude.{
  All, ℕ, zero, suc, ◌+◌, ◌*◌, ◌^◌, ◌≤◌, ◌<◌, ◌≡◌, ◌∙◌, refl, ap, arith, List, [], ◌∷◌, ◌++◌, ◌&&◌,
  not, Bool, true, false, ltb, ◌==◌, pos, ◌+ℤ◌, length, length-append, replicate, append_assoc,
  append-nil, some,
}
use mathlib.Core.Path.{subst}
use pedge.Exceptions.{ok}
use pedge.Python.Bytes.{Bytes, set_slice_append, erased, length-erased}
use pedge.Python.Hex.Laws.{unhex-hexlify}
use pedge.Python.Struct.{le_bytes}
use pedge.Cipher.{XtsAes, IsXtsAes}
use pedge.State.{str_eq}
use pedge.Page.Crypt.{rel_addr}
use pedge.Page.Crypt.Tweak.{tweak_val-le_bytes}
use pedge.Page.Crypt.Sectors.{rel_addr-pos, pos-add}
use pedge.Decrypt.{Progress, turn_page, store_entry, decrypt_data, decrypt_entry, decrypt_entries}
use pedge.Decrypt.Pages.{joined, Sealed, plain_of, cipher_of, count}

-- The loop in the midst of an image.
abbrev pub at : ℕ → ℕ → ℕ → ℕ → Bytes → Progress
at n k j off buf = record {
  decrypted_entry_no = j;
  file_entry_no = k;
  page_num = n;
  start_entry_offset = off;
  output_buf = buf;
}

pub store_entry-at :
    (n k j off : ℕ) (buf e : Bytes)
    → length buf ≤ off
    → store_entry e (at n k j off buf) ≡ at n (k + 1) j (off + 32) (buf ++ e)
unfolding store_entry
store_entry-at n k j off buf e h =
    ap (at n (k + 1) j (off + 32))
      (set_slice_append buf (off + (n * 4096 + k) * 32) 32 e (omega (arith, h)))

turn_page-at :
    (n k j off : ℕ) (buf : Bytes) → k < 128 → turn_page (at n k j off buf) ≡ at n k j off buf
unfolding turn_page
turn_page-at n k j off buf h = let inside : (k == 128) ≡ false = ground (arith, h) in rw inside refl

pub first_entries : (b : Bool) → (not b && ltb 1 1) ≡ false
first_entries true = refl
first_entries false = refl

module _ (xts : XtsAes) (laws : IsXtsAes xts) (key : Bytes) where
  pub length-plain_of :
      (address : ℕ) (es : List (Bytes × Bytes))
      → Sealed xts key address es
      → length (joined (plain_of es)) ≡ 32 * count es
  length-plain_of address [] s = refl
  length-plain_of address ((e, c) ∷ es) s =
      omega
        (arith, length-append e (joined (plain_of es)), s.1, length-plain_of (address + 32) es s.4)

  decrypt_data-sealed :
      (e c : Bytes) (n j : ℕ)
      → xts.encryptor key (le_bytes 16 (4096 * n + 64 + 32 * j)) e ≡ some c
      → All (λ b. b < 256) c
      → 4096 * n + 64 + 32 * j < 256 ^ 16
      → decrypt_data xts c key n j 32 ≡ ok e
  unfolding decrypt_data
  decrypt_data-sealed e c n j sealed bytes high =
      let address = 4096 * n + 64 + 32 * j in
      let there : rel_addr (pos n) +ℤ pos (j * 32) ≡ pos address =
        ap (λ a. a +ℤ pos (j * 32)) (rel_addr-pos n)
        ∙ pos-add (4096 * n + 64) (j * 32)
        ∙ ap pos {x = 4096 * n + 64 + j * 32} {y = address} (omega arith) in
      rw
        (
          unhex-hexlify c bytes,
          there,
          tweak_val-le_bytes address (omega arith) high,
          laws.decryptor-encryptor key (le_bytes 16 address) e sealed,
        )
        refl

  -- A round on an entry that stays as it is.
  pub kept_step :
      (n k j off : ℕ) (buf e : Bytes) (rest : List Bytes)
      → length buf ≤ off
      → k < 128
      → (not (str_eq e (erased 32)) && ltb 1 k) ≡ false
      → decrypt_entries xts key (e ∷ rest) (at n k j off buf)
        ≡ decrypt_entries xts key rest (at n (k + 1) j (off + 32) (buf ++ e))
  unfolding decrypt_entries decrypt_entry
  kept_step n k j off buf e rest h inside stays =
      rw (turn_page-at n k j off buf inside, stays, store_entry-at n k j off buf e h) refl

  sealed_step :
      (n j off : ℕ) (buf e c : Bytes) (rest : List Bytes)
      → length buf ≤ off
      → 2 + j < 128
      → 4096 * n + 64 + 32 * j < 256 ^ 16
      → xts.encryptor key (le_bytes 16 (4096 * n + 64 + 32 * j)) e ≡ some c
      → All (λ b. b < 256) c
      → str_eq c (erased 32) ≡ false
      → decrypt_entries xts key (c ∷ rest) (at n (2 + j) j off buf)
        ≡ decrypt_entries xts key rest (at n (2 + (j + 1)) (j + 1) (off + 32) (buf ++ e))
  unfolding decrypt_entries decrypt_entry
  sealed_step n j off buf e c rest h inside high sealed bytes written =
      let taken : (not (str_eq c (erased 32)) && ltb 1 (2 + j)) ≡ true = ground (arith, written) in
      let next : 2 + j + 1 ≡ 2 + (j + 1) = omega arith in
      rw
        (
          turn_page-at n (2 + j) j off buf inside,
          taken,
          decrypt_data-sealed e c n j sealed bytes high,
          store_entry-at n (2 + j) (j + 1) off buf e h,
          next,
        )
        refl

  pub sealed_steps :
      (n j off : ℕ) (buf : Bytes) (es : List (Bytes × Bytes)) (rest : List Bytes)
      → length buf ≤ off
      → j + count es ≤ 126
      → n < 2 ^ 32
      → Sealed xts key (4096 * n + 64 + 32 * j) es
      → decrypt_entries xts key (cipher_of es ++ rest) (at n (2 + j) j off buf)
        ≡ decrypt_entries xts key rest (
            at n
              (2 + (j + count es))
              (j + count es)
              (off + 32 * count es)
              (buf ++ joined (plain_of es)))
  sealed_steps n j off buf [] rest h fits small s =
      let same : j + 0 ≡ j = omega arith in
      let kept : off + 32 * 0 ≡ off = omega arith in rw (same, kept, append-nil buf) refl
  sealed_steps n j off buf ((e, c) ∷ es) rest h fits small (sealed, len, bytes, written, others) =
      let further : 4096 * n + 64 + 32 * j + 32 ≡ 4096 * n + 64 + 32 * (j + 1) = omega arith in
      let all : j + 1 + count es ≡ j + (count es + 1) = omega arith in
      let past : off + 32 + 32 * count es ≡ off + 32 * (count es + 1) = omega arith in
      sealed_step n j off buf e c (cipher_of es ++ rest) h (omega (arith, fits))
        (omega (arith, fits, small)) sealed bytes written
      ∙ sealed_steps n (j + 1) (off + 32) (buf ++ e) es rest
          (omega (arith, length-append buf e, len, h)) (omega (arith, fits)) small
          (subst (λ (a : ℕ). Sealed xts key a es) further others)
      ∙ rw (all, past, append_assoc buf e (joined (plain_of es))) refl

  pub free_steps :
      (n k j off m : ℕ) (buf : Bytes) (rest : List Bytes)
      → length buf ≤ off
      → k + m ≤ 128
      → decrypt_entries xts key (replicate m (erased 32) ++ rest) (at n k j off buf)
        ≡ decrypt_entries xts key rest
            (at n (k + m) j (off + 32 * m) (buf ++ joined (replicate m (erased 32))))
  unfolding erased
  free_steps n k j off zero buf rest h fits =
      let same : k + 0 ≡ k = omega arith in
      let kept : off + 32 * 0 ≡ off = omega arith in rw (same, kept, append-nil buf) refl
  free_steps n k j off (suc m) buf rest h fits =
      let all : k + 1 + m ≡ k + suc m = omega arith in
      let past : off + 32 + 32 * m ≡ off + 32 * suc m = omega arith in
      kept_step n k j off buf (erased 32) (replicate m (erased 32) ++ rest) h (omega (arith, fits))
        refl
      ∙ free_steps n (k + 1) j (off + 32) m (buf ++ erased 32) rest
          (omega (arith, length-append buf (erased 32), length-erased 32, h)) (omega (arith, fits))
      ∙ rw (all, past, append_assoc buf (erased 32) (joined (replicate m (erased 32)))) refl
