-- ===== src/Stored/Blob/Rounds.antt =====
-- The loop of a blob of version 2, written in the clear: its chunks and its index stand in the pages.
use pedge.Prelude.{
  ℕ, zero, suc, ◌+◌, ◌-◌, ◌*◌, ◌≤◌, ◌≡◌, ◌∙◌, inl, refl, sym, ap, arith, ◌∷◌, ◌++◌, length, false,
  ltb, take, drop, take-append-drop, drop-drop, if◌then◌else◌,
}
use mathlib.Core.Path.{subst}
use pedge.Exceptions.{Result, ok, err, ok-injective, assertion_error, out_of_fuel}
use pedge.Python.Bytes.{Bytes, Str, slice}
use pedge.Cipher.{XtsAes, IsXtsAes}
use pedge.State.{Page, Nvs, Value}
use pedge.Nvs.Monad.{Action, raise, raise_if, cur_page, head_page, on_cur_page, ◌>>=◌}
use pedge.Nvs.Space.{Sound}
use pedge.Nvs.Reach.{Written-Sound, write}
use pedge.Nvs.Keeps.{Kept-trans, Step-Kept}
use pedge.Nvs.Rules.{head-IsValid}
use pedge.Varlen.{blob_turn, blob_round, blob_loop, write_varlen_binary_data, chunk_size, tailroom}
use pedge.Varlen.Headers.{entries_for, slice_value, write_chunk}
use pedge.Varlen.Safe.{
  FitsValue, slice_value-FitsValue, value_length-slice_value, write_chunk-Written,
}
use pedge.Stored.{chunk_layout, index_layout}
use pedge.Stored.Layout.Chunk.{Keyed}
use pedge.Stored.Held.{Holds, Kept-Holds}
use pedge.Stored.Steps.{>>=_done}
use pedge.Stored.Blob.{
  raw, raw-slice_value, concat, PartsThere, BlobThere, length-Keyed, on_cur_page-Ran,
  write_chunk-OnPage,
}
use pedge.Stored.Blob.Turns.{PartsDone, AgainDone, blob_turn-PartsDone}
use pedge.Python.Slices.{length-slice}

-- A chunk is no longer than what remains, fits its page, and, where no new page is made after it,
-- leaves a slot for the index.
chunk_size-le : (room remaining : ℕ) → chunk_size room remaining ≤ remaining
chunk_size-le room remaining = ground arith

chunk_fits :
    (e remaining : ℕ) {u : Unit {0}}
    → (if ltb 126 (e + 1) then err assertion_error else ok tt) ≡ ok u
    → e + 1 + entries_for (chunk_size ((126 - e - 1) * 32) remaining) ≤ 126
chunk_fits e remaining h = ground arith

index_slot :
    (e q j : ℕ) → q ≡ e + 1 + entries_for j → ltb ((126 - e - 1) * 32 - j) 32 ≡ false → q + 1 ≤ 126
index_slot e q j h free = ground arith

module _ (xts : XtsAes) (laws : IsXtsAes xts) (ns : ℕ) (key : Str) (short : length key ≤ 16) where
  module _ (v : Value) (fits : FitsValue v) (size : ℕ) where
    module _ (again : Bytes → ℕ → ℕ → ℕ → Action (Unit {0}))
        (later : AgainDone xts laws ns key short v fits size again) where
      -- A chunk before the others.
      one_more :
          (count offset j : ℕ) (chunk : Bytes) (n : Nvs)
          → chunk ≡ slice offset (offset + j) (raw v)
          → Holds (chunk_layout ns key count (entries_for (length chunk)) chunk) n.pages
          → PartsThere (λ bs. Holds bs n.pages) ns key size (count + 1) (drop (offset + j) (raw v))
          → PartsThere (λ bs. Holds bs n.pages) ns key size count (drop offset (raw v))
      one_more count offset j chunk n cut holds (chunks, joined, there, index) =
          let rest = drop offset (raw v) in
          let first : chunk ≡ take j rest =
            cut ∙ ap (λ k. take k rest) {x = offset + j - offset} {y = j} (omega arith) in
          let others : concat chunks ≡ drop j rest = joined ∙ sym (drop-drop offset j (raw v)) in
          (
            chunk ∷ chunks,
            ap (λ bs. bs ++ concat chunks) first
                ∙ ap (λ bs. take j rest ++ bs) others
                ∙ take-append-drop j rest,
            (holds, there),
            subst (λ (k : ℕ). Holds (index_layout ns key size k) n.pages) (omega arith) index,
          )

      blob_round-PartsDone :
          (es : Bytes) (count offset remaining total left : ℕ) (n : Nvs) (self : Page)
          → Sound total left n
          → n.encrypt ≡ false
          → head_page n.pages ≡ ok self
          → Keyed ns key es
          → offset + remaining ≡ length (raw v)
          → (blob_round xts v size again es count offset remaining self n).0 ≡ ok tt
          → PartsDone xts laws ns key short n size count
              (drop offset (raw v))
              (blob_round xts v size again es count offset remaining self n).1
      unfolding blob_round
      blob_round-PartsDone es count offset remaining total left n self s clear found k whole =
          let room = tailroom self in
          let j = chunk_size room remaining in
          let chunk = slice_value offset (offset + j) v in
          let store = write_chunk xts es count chunk j in
          let turn = blob_turn xts v size again count offset room j (remaining - j) in
          let rest = drop offset (raw v) in
          let Q = λ (out : Result (Unit {0}) × Nvs).
            PartsDone xts laws ns key short n size count rest out.1 in
          >>=_done Q (raise_if (ltb 126 (self.entry_num + 1)) assertion_error)
            (λ _. on_cur_page store >>= turn) n
            λ u in_range. >>=_done Q (on_cur_page store) turn n λ es' ran done.
              let (p, q, ps, e, stored, after) = on_cur_page-Ran store n ran in
              let same : p ≡ self = ok-injective (sym (ap head_page e) ∙ found) in
              let fitting = chunk_fits self.entry_num remaining in_range in
              let fitting' : p.entry_num + 1 + entries_for j ≤ 126 =
                subst (λ (r : Page). r.entry_num + 1 + entries_for j ≤ 126) (sym same) fitting in
              let valid = head-IsValid s e in
              let small = chunk_size-le room remaining in
              let cut : raw chunk ≡ slice offset (offset + j) (raw v) =
                raw-slice_value offset (offset + j) v in
              let len : length (raw chunk) ≡ j =
                ap length cut
                ∙ length-slice offset (offset + j) (raw v) (omega (arith, small, whole))
                ∙ omega arith in
              let (on, k') =
                write_chunk-OnPage xts laws ns key short n p q es es' count chunk j valid clear
                  fitting' k (slice_value-FitsValue offset (offset + j) v fits) len stored in
              let (w, entries, len') =
                write_chunk-Written xts laws n p es count chunk j valid fitting'
                  (length-Keyed short k) (slice_value-FitsValue offset (offset + j) v fits)
                  (value_length-slice_value offset j v) stored in
              let n' = record n { pages = q ∷ ps } in
              let sound : Sound total left n' = Written-Sound s e w in
              subst
                (λ (m : Nvs).
                  (turn es' m).0 ≡ ok tt
                  → PartsDone xts laws ns key short n size count rest (turn es' m).1)
                (sym after)
                (λ returned.
                  let entries' : q.entry_num ≡ self.entry_num + 1 + entries_for j =
                    subst (λ (r : Page). q.entry_num ≡ r.entry_num + 1 + entries_for j) same
                      entries in
                  let (parts, kept) =
                    blob_turn-PartsDone xts laws ns key short v fits size again later count offset
                      room j (remaining - j) total left n' q ps es' sound clear refl k'
                      (omega (arith, small, whole))
                      (λ last free. index_slot self.entry_num q.entry_num j entries' free)
                      returned in
                  (
                    one_more count offset j (raw chunk) (turn es' n').1 cut
                        (Kept-Holds
                          (chunk_layout ns key count (entries_for (length (raw chunk))) (raw chunk))
                          kept (inl on))
                        parts,
                    Kept-trans (Step-Kept {n = n} (write e w)) kept,
                  ))
                done

    -- The rounds of the loop.
    blob_loop-PartsDone :
        (fuel : ℕ)
        → AgainDone xts laws ns key short v fits size
            (blob_loop xts (raise out_of_fuel) fuel v size)
    unfolding blob_loop
    blob_loop-PartsDone zero es count offset remaining total left n s clear k whole = λ done. cc
    blob_loop-PartsDone (suc fuel) es count offset remaining total left n s clear k whole =
        let again = blob_loop xts (raise out_of_fuel) fuel v size in
        >>=_done (λ out. PartsDone xts laws ns key short n size count (drop offset (raw v)) out.1)
          cur_page (blob_round xts v size again es count offset remaining) n
          λ self found.
            blob_round-PartsDone again (blob_loop-PartsDone fuel) es count offset remaining total
              left n self s clear found k whole

    -- A blob whose loop returned stands in the pages.
    pub write_varlen_binary_data-BlobThere :
        (es : Bytes) (total left : ℕ) (n : Nvs)
        → size ≡ length (raw v)
        → Sound total left n
        → n.encrypt ≡ false
        → Keyed ns key es
        → (write_varlen_binary_data xts es v size n).0 ≡ ok tt
        → BlobThere
            (λ bs. Holds bs (write_varlen_binary_data xts es v size n).1.pages)
            ns
            key
            (raw v)
    unfolding write_varlen_binary_data
    write_varlen_binary_data-BlobThere es total left n len s clear k done =
        let out = blob_loop xts (raise out_of_fuel) (size + 2) v size es 0 0 size n in
        let (parts, kept) =
          blob_loop-PartsDone (size + 2) es 0 0 size total left n s clear k (omega (arith, len))
            done in
        subst (λ (j : ℕ). PartsThere (λ bs. Holds bs out.1.pages) ns key j 0 (raw v)) len parts
