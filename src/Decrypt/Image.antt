-- ===== src/Decrypt/Image.antt =====
-- `decrypt` on an image of encrypted pages.
use pedge.Prelude.{
  All, All-append, ℕ, zero, suc, ◌+◌, ◌*◌, ◌^◌, ◌≤◌, ◌≡◌, ◌∙◌, refl, ap, ap₂, arith, List, [], ◌∷◌,
  ◌++◌, true, take, length, length-append, replicate, take-append_eq, drop-append_eq,
}
use pedge.Exceptions.{ok}
use pedge.Python.Bytes.{Bytes, Str, erased, length-erased}
use pedge.Python.Struct.{le_bytes}
use pedge.Cipher.{XtsAes, IsXtsAes}
use pedge.Generate.{is_bin_path}
use pedge.Decrypt.{read_entries, decrypt}
use pedge.Decrypt.Pages.{
  joined, Sealed, plain_of, cipher_of, CryptPage, all_chunks, AreCryptPages, total, IsEntry,
}
use pedge.Decrypt.Turns.{all_steps}

IsEntry-blank : (m : ℕ) → All IsEntry (replicate m (erased 32))
IsEntry-blank zero = tt
IsEntry-blank (suc m) = (length-erased 32, IsEntry-blank m)

read_entries_step :
    (fuel : ℕ) (e rest : Bytes)
    → length e ≡ 32
    → read_entries (suc fuel) (e ++ rest) ≡ e ∷ read_entries fuel rest
unfolding read_entries
read_entries_step fuel [] rest h = absurd (omega (arith, h))
read_entries_step fuel (b ∷ bs) rest h =
    ap₂ (λ (first : Bytes) (others : Bytes). first ∷ read_entries fuel others)
      (take-append_eq 32 (b ∷ bs) rest h) (drop-append_eq 32 (b ∷ bs) rest h)

read_entries_nil : (fuel : ℕ) → read_entries fuel [] ≡ []
unfolding read_entries
read_entries_nil zero = refl
read_entries_nil (suc fuel) = refl

-- Whole entries are read as they are.
read_entries-joined :
    (fuel : ℕ) (es : List Bytes)
    → length (joined es) ≤ fuel
    → All IsEntry es
    → read_entries fuel (joined es) ≡ es
read_entries-joined fuel [] h k = read_entries_nil fuel
read_entries-joined zero (e ∷ es) h k = absurd (omega (arith, h, length-append e (joined es), k.0))
read_entries-joined (suc fuel) (e ∷ es) h k =
    read_entries_step fuel e (joined es) k.0
    ∙ ap (λ (others : List Bytes). e ∷ others)
        (read_entries-joined fuel es (omega (arith, h, length-append e (joined es), k.0)) k.1)

module _ (xts : XtsAes) (laws : IsXtsAes xts) (key : Bytes) where
  IsEntry-cipher_of :
      (address : ℕ) (es : List (Bytes × Bytes))
      → Sealed xts key address es
      → All IsEntry (cipher_of es)
  IsEntry-cipher_of address [] s = tt
  IsEntry-cipher_of address ((e, c) ∷ es) s = (
    laws.length-encryptor key (le_bytes 16 address) e s.0 ∙ s.1,
    IsEntry-cipher_of (address + 32) es s.4,
  )

  IsEntry-all_chunks :
      (n : ℕ) (ps : List CryptPage)
      → AreCryptPages xts key n ps
      → All IsEntry (all_chunks cipher_of ps)
  IsEntry-all_chunks n [] c = tt
  IsEntry-all_chunks n (p ∷ ps) (c, cs) = (
    c.length_header,
    (
      c.length_bitmap,
      All-append IsEntry (cipher_of p.entries ++ replicate p.free (erased 32))
          (all_chunks cipher_of ps)
          (All-append IsEntry (cipher_of p.entries) (replicate p.free (erased 32))
            (IsEntry-cipher_of (4096 * n + 64) p.entries c.sealed) (IsEntry-blank p.free))
          (IsEntry-all_chunks (n + 1) ps cs),
    ),
  )

-- `decrypt` turns an image of pages whose entries are encrypted, each under its address, into the
-- image of the same pages in the clear, headers, bitmaps and free entries as they were, for up to
-- 2 ^ 32 pages, none of whose encrypted entries looks erased, and paths with the extension.
pub decrypt-pages :
    (xts : XtsAes) (input key output : Str) (key_file : Bytes) (p : CryptPage) (ps : List CryptPage)
    → IsXtsAes xts
    → is_bin_path input ≡ true
    → is_bin_path key ≡ true
    → is_bin_path output ≡ true
    → total (p ∷ ps) ≤ 2 ^ 32
    → AreCryptPages xts (take 64 key_file) 0 (p ∷ ps)
    → decrypt xts input key output key_file (joined (all_chunks cipher_of (p ∷ ps)))
      ≡ ok (joined (all_chunks plain_of (p ∷ ps)))
unfolding decrypt
decrypt-pages xts input key output key_file p ps laws bin_input bin_key bin_output small c =
    let secret = take 64 key_file in
    let image = joined (all_chunks cipher_of (p ∷ ps)) in
    rw
      (
        bin_input,
        bin_key,
        bin_output,
        read_entries-joined (length image) (all_chunks cipher_of (p ∷ ps)) (omega arith)
            (IsEntry-all_chunks xts laws secret 0 (p ∷ ps) c),
      )
      (all_steps xts laws secret p ps small c)
