-- ===== src/Decrypt/Pages.antt =====
-- An image of encrypted pages, entry by entry.
use pedge.Prelude.{
  All, ℕ, ◌+◌, ◌*◌, ◌<◌, ◌≡◌, ◌∙◌, refl, sym, ap, List, [], ◌∷◌, ◌++◌, false, length, replicate,
  append_assoc, some,
}
use pedge.Python.Bytes.{Bytes, erased}
use pedge.Python.Struct.{le_bytes}
use pedge.Cipher.{XtsAes}
use pedge.State.{str_eq}

abbrev pub joined : List Bytes → Bytes
joined [] = []
joined (e ∷ es) = e ++ joined es

pub joined-append : (es fs : List Bytes) → joined (es ++ fs) ≡ joined es ++ joined fs
joined-append [] fs = refl
joined-append (e ∷ es) fs =
    ap (λ (bs : Bytes). e ++ bs) (joined-append es fs)
    ∙ sym (append_assoc e (joined es) (joined fs))

-- Entries in the clear with what they are encrypted to, from an address on: no such entry looks
-- erased.
abbrev pub Sealed : XtsAes → Bytes → ℕ → List (Bytes × Bytes) → Type 0
Sealed xts key address [] = Unit
Sealed xts key address ((e, c) ∷ rest) =
    (xts.encryptor key (le_bytes 16 address) e ≡ some c)
    × (length e ≡ 32)
    × All (λ b. b < 256) c
    × (str_eq c (erased 32) ≡ false)
    × Sealed xts key (address + 32) rest

abbrev pub plain_of : List (Bytes × Bytes) → List Bytes
plain_of [] = []
plain_of ((e, c) ∷ rest) = e ∷ plain_of rest

abbrev pub cipher_of : List (Bytes × Bytes) → List Bytes
cipher_of [] = []
cipher_of ((e, c) ∷ rest) = c ∷ cipher_of rest

-- A page: its header and bitmap, its entries, and the ones that are free.
pub record CryptPage : Type 0 where
  pub header_entry : Bytes
  pub bitmap : Bytes
  pub entries : List (Bytes × Bytes)
  pub free : ℕ

abbrev pub chunks : (List (Bytes × Bytes) → List Bytes) → CryptPage → List Bytes
chunks f p = p.header_entry ∷ p.bitmap ∷ (f p.entries ++ replicate p.free (erased 32))

abbrev pub all_chunks : (List (Bytes × Bytes) → List Bytes) → List CryptPage → List Bytes
all_chunks f [] = []
all_chunks f (p ∷ ps) = chunks f p ++ all_chunks f ps

abbrev pub count : List (Bytes × Bytes) → ℕ
count [] = 0
count (e ∷ rest) = count rest + 1

pub record IsCryptPage (xts : XtsAes) (key : Bytes) (page_num : ℕ) (p : CryptPage) : Type 0 where
  pub length_header : length p.header_entry ≡ 32
  pub length_bitmap : length p.bitmap ≡ 32
  pub sealed : Sealed xts key (4096 * page_num + 64) p.entries
  pub filled : count p.entries + p.free ≡ 126

-- Pages with their numbers, from one on.
abbrev pub AreCryptPages : XtsAes → Bytes → ℕ → List CryptPage → Type 0
AreCryptPages xts key n [] = Unit
AreCryptPages xts key n (p ∷ ps) = IsCryptPage xts key n p × AreCryptPages xts key (n + 1) ps

abbrev pub total : List CryptPage → ℕ
total [] = 0
total (p ∷ ps) = total ps + 1

abbrev pub IsEntry : Bytes → Type 0
IsEntry e = length e ≡ 32
