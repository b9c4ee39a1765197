-- ===== src/Stored/Blob.antt =====
-- A blob of version 2, written in the clear, as chunks and their index: what stands on a page.
pub mod Rounds
pub mod Turns
pub mod Whole
use pedge.Prelude.{
  ℕ, zero, suc, ◌+◌, ◌-◌, ◌*◌, ◌≤◌, ◌<◌, ◌≡◌, ◌≢◌, ◌∙◌, inl, refl, sym, ap, arith, List, [], ◌∷◌,
  ◌++◌, length, Bool, true, false, ◌||◌, not, ltb, ◌==◌, ==_iff, take, drop, length-append,
  length-take, length-drop, take-append-drop, drop-drop, drop-all, append-nil, if◌then◌else◌,
}
use mathlib.Core.Path.{subst}
use pedge.Exceptions.{Result, ok, err, ok-injective, assertion_error, out_of_fuel}
use pedge.Exceptions
use pedge.Python.Bytes.{Bytes, Str, slice, zeros, length-zeros}
use pedge.Python.Utf8.{encode_ascii}
use pedge.Cipher.{XtsAes, IsXtsAes}
use pedge.State.{Page, Nvs, Value, text, binary, bytearray}
use pedge.Page.Bitmap.{IsValid}
use pedge.Page.Write.{Wrote, write_entry_to_buf-eq-ok}
use pedge.Page.Entry.{write_entry_to_buf}
use pedge.Nvs.{create_new_page}
use pedge.Nvs.Monad.{
  Action, pure, raise, raise_if, lift, cur_page, head_page, set_head, on_cur_page, store_page,
  ◌>>=◌, ◌>>◌,
}
use pedge.Nvs.Space.{Sound}
use pedge.Nvs.Reach.{Written-Sound, write, HasRoom}
use pedge.Nvs.Keeps.{Kept, Kept-trans, Step-Kept, Reach-Kept}
use pedge.Nvs.Rules.{head-IsValid}
use pedge.Varlen.{
  blob_next, blob_turn, blob_round, blob_loop, write_varlen_binary_data, chunk_size, tailroom,
}
use pedge.Varlen.Headers.{
  entries_for, slice_value, value_length, to_bytes, chunk_header, write_both, write_chunk,
  index_entry, write_index,
}
use pedge.Varlen.Safe.{
  FitsValue, slice_value-FitsValue, value_length-slice_value, write_chunk-Written,
  write_index-Written, length-index_entry,
}
use pedge.Varlen.Steps.{make_room-Good}
use pedge.State.ItemType
use pedge.Stored.{entry_back, entry_layout, data_field, chunk_layout, index_layout}
use pedge.Stored.Layout.Chunk.{Keyed, chunk_header_lem, index_entry_lem}
use pedge.Stored.Held.{OnPage, Holds, Kept-Holds, Wrote-OnPage}
use pedge.Stored.Steps.{Reach-encrypt, >>=_done}
use pedge.Stored.Entries.{write_both-OnPage, stored_bytes_clear}

-- The bytes of a value; a text is ASCII.
abbrev pub raw : Value → Bytes
raw (text s) = s
raw (binary bs) = bs

pub length-raw : (v : Value) → length (raw v) ≡ value_length v
length-raw (text s) = refl
length-raw (binary bs) = refl

to_bytes-raw : (v : Value) → FitsValue v → to_bytes v ≡ ok (raw v)
unfolding to_bytes
to_bytes-raw (text s) h = encode_ascii s h
to_bytes-raw (binary bs) h = refl

pub raw-slice_value : (a b : ℕ) (v : Value) → raw (slice_value a b v) ≡ slice a b (raw v)
raw-slice_value a b (text s) = refl
raw-slice_value a b (binary bs) = refl

abbrev pub concat : List Bytes → Bytes
concat [] = []
concat (c ∷ cs) = c ++ concat cs

-- Chunks, numbered from an index on.
abbrev pub ChunksThere : (Bytes → Type 0) → ℕ → Str → ℕ → List Bytes → Type 0
ChunksThere place ns key index [] = Unit
ChunksThere place ns key index (c ∷ cs) =
    place (chunk_layout ns key index (entries_for (length c)) c)
    × ChunksThere place ns key (index + 1) cs

-- Data in chunks, numbered from an index on, and the blob's index.
abbrev pub PartsThere : (Bytes → Type 0) → ℕ → Str → ℕ → ℕ → Bytes → Type 0
PartsThere place ns key size index rest =
    (chunks : List Bytes) × (concat chunks ≡ rest)
    × ChunksThere place ns key index chunks
    × place (index_layout ns key size (index + length chunks))

-- A blob.
abbrev pub BlobThere : (Bytes → Type 0) → ℕ → Str → Bytes → Type 0
BlobThere place ns key blob = PartsThere place ns key (length blob) 0 blob

pub length-Keyed :
    {ns : ℕ} {key : Str} {es : Bytes} → length key ≤ 16 → Keyed ns key es → length es ≡ 32
length-Keyed {ns} {key} short k =
    let old : Bytes = k.z₀ ∷ k.z₁ ∷ 0xFF ∷ 0xFF ∷ k.y₀ ∷ k.y₁ ∷ k.y₂ ∷ k.y₃ ∷ [] in
    omega (
      arith,
      ap length k.is,
      length-append key (zeros (16 - length key) ++ old),
      length-append (zeros (16 - length key)) old,
      length-zeros (16 - length key),
    )

-- A call on the current page that returned: it stored what became of the page.
abbrev pub Ran : {A : Type 0} → (Nvs → Page → Result (A × Page)) → Nvs → A → Nvs → Type 0
Ran f n a n' =
    (p : Page) × (q : Page) × (ps : List Page) × (n.pages ≡ p ∷ ps)
    × (f n p ≡ ok (a, q))
    × (n' ≡ record n { pages = q ∷ ps })

pub on_cur_page-Ran :
    {A : Type 0} (f : Nvs → Page → Result (A × Page)) (n : Nvs) {a : A}
    → (on_cur_page f n).0 ≡ ok a
    → Ran f n a (on_cur_page f n).1
on_cur_page-Ran {A} f n {a} done = split n.pages refl done
  where
    at_pages : List Page → Result A × Nvs
    at_pages ps = ((λ (m : Nvs). (head_page ps, m)) >>= λ self. lift (f n self) >>= store_page) n

    after :
        (p : Page) (ps : List Page)
        → n.pages ≡ p ∷ ps
        → (r : Result (A × Page)) → f n p ≡ r
        → ((lift r >>= store_page) n).0 ≡ ok a
        → Ran f n a ((lift r >>= store_page) n).1
    after p ps e (ok (b, q)) is done =
        let same : b ≡ a = ok-injective done in
        (
          p,
          q,
          ps,
          e,
          is ∙ ap (λ (c : A). ok (c, q)) same,
          ap (λ (k : List Page). record n { pages = set_head q k }) e,
        )
    after p ps e (err x) is done = cc

    split : (ps : List Page) → n.pages ≡ ps → (at_pages ps).0 ≡ ok a → Ran f n a (at_pages ps).1
    split [] e done = cc
    split (p ∷ ps) e done = after p ps e (f n p) refl done

module _ (xts : XtsAes) (laws : IsXtsAes xts) (ns : ℕ) (key : Str) (short : length key ≤ 16) where
  -- A chunk on its page.
  pub write_chunk-OnPage :
      (n : Nvs) (p q : Page) (es es' : Bytes) (index : ℕ) (v : Value) (size : ℕ)
      → IsValid p
      → n.encrypt ≡ false
      → p.entry_num + 1 + entries_for size ≤ 126
      → Keyed ns key es
      → FitsValue v
      → length (raw v) ≡ size
      → write_chunk xts es index v size n p ≡ ok (es', q)
      → OnPage (chunk_layout ns key index (entries_for (length (raw v))) (raw v)) q
        × Keyed ns key es'
  unfolding write_chunk chunk_layout
  write_chunk-OnPage n p q es es' index v size valid clear room k fits len h =
      let (payload, p₁, h₁) = Exceptions.>>=-eq-ok (to_bytes v) _ h in
      let (es₁, p₂, h₂) = Exceptions.>>=-eq-ok (chunk_header es index size payload) _ h₁ in
      let (q₁, p₃, h₃) =
        Exceptions.>>=-eq-ok (write_both xts n p es₁ payload (entries_for size)) _ h₂ in
      let same : payload ≡ raw v = ok-injective (sym p₁ ∙ to_bytes-raw v fits) in
      let (layout, k₁) = chunk_header_lem short es index size payload k p₂ in
      let on =
        write_both-OnPage xts laws n p es₁ payload (entries_for size) clear valid room
          (length-Keyed short k₁) (omega (arith, ap length same, len)) p₃ in
      let whole = λ (k : ℕ) (bs : Bytes).
        entry_layout ns ItemType.blob_data (entries_for k + 1) index key (data_field k bs) ++ bs in
      let laid : es₁ ++ payload ≡ whole (length (raw v)) (raw v) =
        ap (λ bs. bs ++ payload) layout
        ∙ ap (λ k. whole k payload) (sym len)
        ∙ ap (whole (length (raw v))) same in
      subst (λ (r : Bytes × Page). OnPage (whole (length (raw v)) (raw v)) r.1 × Keyed ns key r.0)
        (ok-injective h₃) (subst (λ (bs : Bytes). OnPage bs q₁) laid on, k₁)

  -- The index on its page.
  pub write_index-OnPage :
      (n : Nvs) (p q : Page) (es : Bytes) (size count : ℕ)
      → IsValid p
      → n.encrypt ≡ false
      → p.entry_num + 1 ≤ 126
      → Keyed ns key es
      → write_index xts es size count n p ≡ ok (tt, q)
      → OnPage (index_layout ns key size count) q
  unfolding write_index
  write_index-OnPage n p q es size count valid clear room k h =
      let (es₁, p₁, h₁) = Exceptions.>>=-eq-ok (index_entry es size count) _ h in
      let (q₁, p₂, h₂) = Exceptions.>>=-eq-ok (write_entry_to_buf xts n p (bytearray es₁) 1) _ h₁ in
      let len = length-index_entry es size count (length-Keyed short k) p₁ in
      let (out, stored, w) =
        write_entry_to_buf-eq-ok xts n p (bytearray es₁) 1 laws valid room (omega (arith, len))
          p₂ in
      let same : out ≡ es₁ = stored_bytes_clear xts n p.entry_num (bytearray es₁) 1 clear stored in
      let on = Wrote-OnPage (subst (λ (bs : Bytes). Wrote p bs 1 q₁) same w) (omega (arith, len)) in
      subst (λ (r : Unit {0} × Page). OnPage (index_layout ns key size count) r.1) (ok-injective h₂)
        (subst (λ (bs : Bytes). OnPage bs q₁) (index_entry_lem short es size count k p₁) on)
