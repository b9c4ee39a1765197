-- ===== src/Stored/Blob/Turns.antt =====
-- What follows a chunk in the loop of a blob of version 2: a new page, the next round or the index.
use pedge.Prelude.{
  ℕ, ◌+◌, ◌-◌, ◌≤◌, ◌≡◌, ◌∙◌, inl, refl, sym, arith, List, [], ◌∷◌, length, Bool, true, false, ◌||◌,
  not, ltb, ◌==◌, ==_iff, drop, drop-all, if◌then◌else◌,
}
use mathlib.Core.Path.{subst}
use pedge.Exceptions.{Result, ok}
use pedge.Python.Bytes.{Bytes, Str}
use pedge.Cipher.{XtsAes, IsXtsAes}
use pedge.State.{Page, Nvs, Value}
use pedge.Nvs.{create_new_page}
use pedge.Nvs.Monad.{Action, pure, on_cur_page}
use pedge.Nvs.Space.{Sound}
use pedge.Nvs.Reach.{write, HasRoom}
use pedge.Nvs.Keeps.{Kept, Kept-trans, Step-Kept, Reach-Kept}
use pedge.Nvs.Rules.{head-IsValid}
use pedge.Varlen.{blob_next, blob_turn}
use pedge.Varlen.Headers.{write_index}
use pedge.Varlen.Safe.{FitsValue, write_index-Written}
use pedge.Varlen.Steps.{make_room-Good}
use pedge.Stored.{index_layout}
use pedge.Stored.Layout.Chunk.{Keyed}
use pedge.Stored.Held.{OnPage, Holds}
use pedge.Stored.Steps.{Reach-encrypt, >>=_done}
use pedge.Stored.Blob.{raw, PartsThere, length-Keyed, on_cur_page-Ran, write_index-OnPage}
use pedge.Nvs.Reach.{OnOk}

module _ (xts : XtsAes) (laws : IsXtsAes xts) (ns : ℕ) (key : Str) (short : length key ≤ 16) where
  -- What the loop leaves from a state on: the rest of the data, and all that was there.
  abbrev pub PartsDone : Nvs → ℕ → ℕ → Bytes → Nvs → Type 0
  PartsDone n size index rest n' =
      PartsThere (λ bs. Holds bs n'.pages) ns key size index rest × Kept n.pages n'.pages

  module _ (v : Value) (fits : FitsValue v) (size : ℕ) where
    -- What is left to show of a loop for its next round.
    abbrev pub AgainDone : (Bytes → ℕ → ℕ → ℕ → Action (Unit {0})) → Type 0
    AgainDone again =
        (es : Bytes) (count offset remaining total left : ℕ) (n : Nvs)
        → Sound total left n
        → n.encrypt ≡ false
        → Keyed ns key es
        → offset + remaining ≡ length (raw v)
        → (again es count offset remaining n).0 ≡ ok tt
        → PartsDone n size count (drop offset (raw v)) (again es count offset remaining n).1

    module _ (again : Bytes → ℕ → ℕ → ℕ → Action (Unit {0})) (later : AgainDone again) where
      index-PartsDone :
          (es : Bytes) (count offset total left : ℕ) (n : Nvs)
          → Sound total left n
          → n.encrypt ≡ false
          → Keyed ns key es
          → length (raw v) ≤ offset
          → HasRoom 1 n.pages
          → (on_cur_page (write_index xts es size count) n).0 ≡ ok tt
          → PartsDone n size count
              (drop offset (raw v))
              (on_cur_page (write_index xts es size count) n).1
      index-PartsDone es count offset total left n s clear k last room done =
          let (p, q, ps, e, ran, after) = on_cur_page-Ran (write_index xts es size count) n done in
          let free : HasRoom 1 (p ∷ ps) = subst (HasRoom 1) e room in
          let valid = head-IsValid s e in
          let on =
            write_index-OnPage xts laws ns key short n p q es size count valid clear free k ran in
          let w =
            write_index-Written xts laws n p es size count (length-Keyed short k) valid free ran in
          subst (PartsDone n size count (drop offset (raw v))) (sym after) (
            (
              [],
              sym (drop-all offset (raw v) last),
              tt,
              inl (subst (λ (j : ℕ). OnPage (index_layout ns key size j) q) (omega arith) on),
            ),
            Step-Kept {n = n} (write e w.1),
          )

      blob_next-PartsDone :
          (es : Bytes) (count offset remaining total left : ℕ) (n : Nvs)
          → Sound total left n
          → n.encrypt ≡ false
          → Keyed ns key es
          → offset + remaining ≡ length (raw v)
          → ((remaining == 0) ≡ true → HasRoom 1 n.pages)
          → (blob_next xts v size again es count offset remaining n).0 ≡ ok tt
          → PartsDone n size count
              (drop offset (raw v))
              (blob_next xts v size again es count offset remaining n).1
      unfolding blob_next
      blob_next-PartsDone es count offset remaining total left n s clear k whole room =
          split (remaining == 0) refl
        where
          next : Bool → Action (Unit {0})
          next b = elim b [
            | true ↦ on_cur_page (write_index xts es size count)
            | false ↦ again es count offset remaining
          ]

          split :
              (b : Bool)
              → (remaining == 0) ≡ b
              → (next b n).0 ≡ ok tt
              → PartsDone n size count (drop offset (raw v)) (next b n).1
          split true e =
              index-PartsDone es count offset total left n s clear k
                (omega (arith, (==_iff remaining 0).0 e, whole)) (room e)
          split false e = later es count offset remaining total left n s clear k whole

      pub blob_turn-PartsDone :
          (count offset room chunk remaining total left : ℕ) (n : Nvs) (q : Page) (ps : List Page)
          (es : Bytes)
          → Sound total left n
          → n.encrypt ≡ false
          → n.pages ≡ q ∷ ps
          → Keyed ns key es
          → offset + chunk + remaining ≡ length (raw v)
          → ((remaining == 0) ≡ true → ltb (room - chunk) 32 ≡ false → q.entry_num + 1 ≤ 126)
          → (blob_turn xts v size again count offset room chunk remaining es n).0 ≡ ok tt
          → PartsDone n size
              (count + 1)
              (drop (offset + chunk) (raw v))
              (blob_turn xts v size again count offset room chunk remaining es n).1
      unfolding blob_turn
      blob_turn-PartsDone count offset room chunk remaining total left n q ps es s clear e k whole
            free =
          let turned : Action (Unit {0}) =
            if not (remaining == 0) || ltb (room - chunk) 32
            then create_new_page false
            else pure tt in
          let n' = (turned n).1 in
          let rest = drop (offset + chunk) (raw v) in
          let next = blob_next xts v size again es (count + 1) (offset + chunk) remaining in
          let (w, slot) =
            make_room-Good (remaining == 0) (ltb (room - chunk) 32) total left n q ps s e free in
          >>=_done (λ out. PartsDone n size (count + 1) rest out.1) turned (λ _. next) n
            λ u made done.
              let (parts, kept) =
                blob_next-PartsDone es (count + 1) (offset + chunk) remaining total w.left n'
                  w.sound (Reach-encrypt w.path ∙ clear) k whole
                  (subst
                    (λ (r : Result (Unit {0})).
                      OnOk r (λ _. (remaining == 0) ≡ true → HasRoom 1 n'.pages))
                    made slot)
                  done in
              (parts, Kept-trans (Reach-Kept w.path) kept)
