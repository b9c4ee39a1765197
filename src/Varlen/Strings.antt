-- ===== src/Varlen/Strings.antt =====
-- The length limit of strings on pages of version 2.
use pedge.Prelude.{ℕ, ◌≤◌, ◌<◌, ◌≡◌, ◌⊎◌, inl, inr, refl, arith, length, List, ◌∷◌, some}
use native.Mathlib.Decide.{dec_lt}
use pedge.Exceptions.{ok, err, input_error, size_exceeds_max, page_full_error}
use pedge.Python.Bytes.{Str}
use pedge.Cipher.{XtsAes}
use pedge.State.{Page, Nvs, text, string_encoding, version2, max_blob_size}
use pedge.Varlen.{write_varlen_data, write_varlen_on}
use pedge.Varlen.Headers.{check_varlen}

max_blob_size2 : max_blob_size version2 ≡ some 4000
unfolding max_blob_size
max_blob_size2 = refl

-- On an empty page of version 2 a string of up to 3968 characters passes the tests, a longer one of
-- up to 4000 is told that the page is full, and only above 4000 that it is too long.
pub check_varlen-string :
    (p : Page) (s : Str)
    → p.version ≡ version2
    → p.entry_num ≡ 0
    → ((length s ≤ 3968) × (check_varlen p (text s) string_encoding ≡ ok tt))
      ⊎ (((3968 < length s)
            × (length s ≤ 4000)
            × (check_varlen p (text s) string_encoding ≡ err page_full_error))
          ⊎ ((4000 < length s)
              × (check_varlen p (text s) string_encoding ≡ err (input_error size_exceeds_max))))
unfolding check_varlen max_blob_size
check_varlen-string p s v2 empty = elim (dec_lt 3968 (length s)) [
  | no small ↦ inl (omega arith, ground arith)
  | yes large ↦ elim (dec_lt 4000 (length s)) [
    | yes over ↦ inr (inr (over, ground arith))
    | no within ↦ inr (inl (large, omega arith, ground arith))
  ]
]

check_varlen-long_string :
    (p : Page) (s : Str)
    → p.version ≡ version2
    → 3968 < length s
    → length s ≤ 4000
    → check_varlen p (text s) string_encoding ≡ err page_full_error
unfolding check_varlen max_blob_size
check_varlen-long_string p s v2 large within = ground arith

-- A string of 3969 to 4000 characters finds every page of version 2 full, an empty one too: the call
-- raises PageFullError and changes nothing.
pub write_varlen_data-long_string :
    (xts : XtsAes) (key s : Str) (ns_index : ℕ) (n : Nvs) (p : Page) (ps : List Page)
    → n.pages ≡ p ∷ ps
    → p.version ≡ version2
    → 3968 < length s
    → length s ≤ 4000
    → write_varlen_data xts key (text s) string_encoding ns_index n ≡ (err page_full_error, n)
unfolding write_varlen_data write_varlen_on
write_varlen_data-long_string xts key s ns_index n p ps e v2 large within =
    rw (e, check_varlen-long_string p s v2 large within)
