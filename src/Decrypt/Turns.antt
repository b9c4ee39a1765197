-- ===== src/Decrypt/Turns.antt =====
-- The rounds of the loop of `decrypt` on whole pages.
use pedge.Prelude.{
  ℕ, zero, suc, ◌+◌, ◌*◌, ◌^◌, ◌≤◌, ◌<◌, ◌≡◌, ◌∙◌, refl, sym, ap, arith, List, [], ◌∷◌, ◌++◌, ◌&&◌,
  not, Bool, true, false, ltb, length, length-append, replicate, append_assoc, append-nil,
}
use mathlib.Core.Path.{subst}
use pedge.Exceptions.{ok}
use pedge.Python.Bytes.{Bytes, set_slice, erased, length-erased}
use pedge.Cipher.{XtsAes, IsXtsAes}
use pedge.State.{str_eq}
use pedge.Decrypt.{Progress, start, turn_page, store_entry, decrypt_entry, decrypt_entries}
use pedge.Decrypt.Pages.{
  joined, joined-append, Sealed, plain_of, cipher_of, CryptPage, all_chunks, count, IsCryptPage,
  AreCryptPages, total,
}
use pedge.Decrypt.Steps.{
  at, store_entry-at, first_entries, length-plain_of, kept_step, sealed_steps, free_steps,
}

module _ (xts : XtsAes) (laws : IsXtsAes xts) (key : Bytes) where
  -- A page after its header.
  page_steps :
      (n off : ℕ) (buf : Bytes) (p : CryptPage) (rest : List Bytes)
      → length buf ≤ off
      → n < 2 ^ 32
      → IsCryptPage xts key n p
      → decrypt_entries xts key
          (p.bitmap ∷ ((cipher_of p.entries ++ replicate p.free (erased 32)) ++ rest))
          (at n 1 0 off buf)
        ≡ decrypt_entries xts key rest (
            at n 128
              (count p.entries)
              (off + 32 * 127)
              (buf ++ (p.bitmap ++ joined (plain_of p.entries ++ replicate p.free (erased 32)))))
  page_steps n off buf p rest h small c =
      let es = p.entries in
      let blank = replicate p.free (erased 32) in
      let k = count es in
      let sum : 0 + k ≡ k = omega arith in
      let from_first : 4096 * n + 64 ≡ 4096 * n + 64 + 32 * 0 = omega arith in
      let all : 2 + (0 + k) + p.free ≡ 128 = omega (arith, c.filled) in
      let past : off + 32 + 32 * k + 32 * p.free ≡ off + 32 * 127 = omega (arith, c.filled) in
      let whole : (((buf ++ p.bitmap) ++ joined (plain_of es)) ++ joined blank)
          ≡ buf ++ (p.bitmap ++ joined (plain_of es ++ blank)) =
        append_assoc (buf ++ p.bitmap) (joined (plain_of es)) (joined blank)
        ∙ append_assoc buf p.bitmap (joined (plain_of es) ++ joined blank)
        ∙ ap (λ (bs : Bytes). buf ++ (p.bitmap ++ bs)) (sym (joined-append (plain_of es) blank)) in
      kept_step xts laws key n 1 0 off buf p.bitmap ((cipher_of es ++ blank) ++ rest) h
        (omega arith) (first_entries (str_eq p.bitmap (erased 32)))
      ∙ ap (λ (cs : List Bytes). decrypt_entries xts key cs (at n 2 0 (off + 32) (buf ++ p.bitmap)))
          (append_assoc (cipher_of es) blank rest)
      ∙ sealed_steps xts laws key n 0 (off + 32) (buf ++ p.bitmap) es (blank ++ rest)
          (omega (arith, length-append buf p.bitmap, c.length_bitmap, h)) (omega (arith, c.filled))
          small (subst (λ (a : ℕ). Sealed xts key a es) from_first c.sealed)
      ∙ free_steps xts laws key n (2 + (0 + k)) (0 + k) (off + 32 + 32 * k) p.free
          ((buf ++ p.bitmap) ++ joined (plain_of es)) rest
          (omega (
            arith,
            length-append (buf ++ p.bitmap) (joined (plain_of es)),
            length-append buf p.bitmap,
            c.length_bitmap,
            h,
            length-plain_of xts laws key (4096 * n + 64) es c.sealed,
          ))
          (omega (arith, c.filled))
      ∙ rw (all, past, whole, sum) refl

  -- The header of a page, after another page and at the start.
  turn_step :
      (n j off : ℕ) (buf e : Bytes) (rest : List Bytes)
      → length buf ≤ off
      → decrypt_entries xts key (e ∷ rest) (at n 128 j off buf)
        ≡ decrypt_entries xts key rest (at (n + 1) 1 0 (off + 32) (buf ++ e))
  unfolding decrypt_entries decrypt_entry turn_page
  turn_step n j off buf e rest h =
      rw (stays (str_eq e (erased 32)), store_entry-at (n + 1) 0 0 off buf e h) refl
    where
      stays : (b : Bool) → (not b && ltb 1 0) ≡ false
      stays true = refl
      stays false = refl

  start_step :
      (e : Bytes) (rest : List Bytes)
      → decrypt_entries xts key (e ∷ rest) start ≡ decrypt_entries xts key rest (at 0 1 0 32 e)
  unfolding decrypt_entries decrypt_entry turn_page store_entry set_slice
  start_step e rest = rw (stays (str_eq e (erased 32)), append-nil e) refl
    where
      stays : (b : Bool) → (not b && ltb 1 0) ≡ false
      stays true = refl
      stays false = refl

  length-blank : (m : ℕ) → length (joined (replicate m (erased 32))) ≡ 32 * m
  length-blank zero = refl
  length-blank (suc m) = omega (
    arith,
    length-append (erased 32) (joined (replicate m (erased 32))),
    length-erased 32,
    length-blank m,
  )

  abbrev body : CryptPage → List Bytes
  body p = plain_of p.entries ++ replicate p.free (erased 32)

  length-body :
      (n : ℕ) (p : CryptPage) → IsCryptPage xts key n p → length (joined (body p)) ≡ 32 * 126
  length-body n p c =
      let blank = replicate p.free (erased 32) in
      ap length (joined-append (plain_of p.entries) blank)
      ∙ omega (
        arith,
        length-append (joined (plain_of p.entries)) (joined blank),
        length-plain_of xts laws key (4096 * n + 64) p.entries c.sealed,
        length-blank p.free,
        c.filled,
      )

  ended : (p : Progress) → decrypt_entries xts key [] p ≡ ok p.output_buf
  unfolding decrypt_entries
  ended p = refl

  -- Pages after a page.
  pages_steps :
      (n j off : ℕ) (buf : Bytes) (ps : List CryptPage)
      → length buf ≤ off
      → n + 1 + total ps ≤ 2 ^ 32
      → AreCryptPages xts key (n + 1) ps
      → decrypt_entries xts key (all_chunks cipher_of ps) (at n 128 j off buf)
        ≡ ok (buf ++ joined (all_chunks plain_of ps))
  pages_steps n j off buf [] h small c = ended (at n 128 j off buf) ∙ ap ok (sym (append-nil buf))
  pages_steps n j off buf (p ∷ ps) h small (c, cs) =
      let head = buf ++ p.header_entry in
      let sofar = head ++ (p.bitmap ++ joined (body p)) in
      let others = all_chunks plain_of ps in
      let len : length head ≤ off + 32 =
        omega (arith, length-append buf p.header_entry, c.length_header, h) in
      turn_step n j off buf p.header_entry
        (p.bitmap
          ∷ ((cipher_of p.entries ++ replicate p.free (erased 32)) ++ all_chunks cipher_of ps))
        h
      ∙ page_steps (n + 1) (off + 32) head p (all_chunks cipher_of ps) len (omega (arith, small)) c
      ∙ pages_steps (n + 1) (count p.entries) (off + 32 + 32 * 127) sofar ps
          (omega (
            arith,
            length-append head (p.bitmap ++ joined (body p)),
            length-append p.bitmap (joined (body p)),
            c.length_bitmap,
            len,
            length-body (n + 1) p c,
          ))
          (omega (arith, small)) cs
      ∙ ap ok (rw (joined-append (body p) others) (simp append_assoc refl))

  -- The first page, and the others.
  pub all_steps :
      (p : CryptPage) (ps : List CryptPage)
      → total (p ∷ ps) ≤ 2 ^ 32
      → AreCryptPages xts key 0 (p ∷ ps)
      → decrypt_entries xts key (all_chunks cipher_of (p ∷ ps)) start
        ≡ ok (joined (all_chunks plain_of (p ∷ ps)))
  all_steps p ps small (c, cs) =
      let sofar = p.header_entry ++ (p.bitmap ++ joined (body p)) in
      let others = all_chunks plain_of ps in
      start_step p.header_entry (
        p.bitmap
        ∷ ((cipher_of p.entries ++ replicate p.free (erased 32)) ++ all_chunks cipher_of ps))
      ∙ page_steps 0 32 p.header_entry p (all_chunks cipher_of ps) (omega (arith, c.length_header))
          (omega arith) c
      ∙ pages_steps 0 (count p.entries) (32 + 32 * 127) sofar ps
          (omega (
            arith,
            length-append p.header_entry (p.bitmap ++ joined (body p)),
            length-append p.bitmap (joined (body p)),
            c.length_bitmap,
            c.length_header,
            length-body 0 p c,
          ))
          (omega (arith, small)) cs
      ∙ ap ok (rw (joined-append (body p) others) (simp append_assoc refl))
