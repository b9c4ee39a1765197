-- ===== src/Varlen/Steps.antt =====
-- The loop of `write_varlen_binary_data`, as steps of the object.
use pedge.Prelude.{
  ℕ, zero, suc, ◌+◌, ◌-◌, ◌≤◌, ◌≡◌, refl, sym, arith, length, List, [], ◌∷◌, Bool, true, false,
  ◌||◌, not, ltb, ◌==◌, if◌then◌else◌,
}
use mathlib.Core.Path.{subst}
use pedge.Exceptions.{assertion_error, out_of_fuel}
use pedge.Python.Bytes.{Bytes}
use pedge.Cipher.{XtsAes, IsXtsAes}
use pedge.State.{Page, Nvs, Value}
use pedge.Page.Bitmap.{IsValid}
use pedge.Nvs.{create_new_page}
use pedge.Nvs.Monad.{Action, pure, raise, on_cur_page, ◌>>=◌}
use pedge.Nvs.Space.{Sound}
use pedge.Nvs.Reach.{Written, Went-refl, OnOk, Safe, Good-elim, HasRoom, create_new_page-Good}
use pedge.Nvs.Keeps.{Keeps, Went-Keeps}
use pedge.Nvs.Rules.{
  Good, head-IsValid, cur_page-Good, raise_if-Good, on_cur_page-Good, on_cur_page-Good_last,
  OnOk-intro, OnOk-map,
}
use pedge.Varlen.{
  blob_next, blob_turn, blob_round, blob_loop, write_varlen_binary_data, chunk_size, tailroom,
}
use pedge.Varlen.Headers.{entries_for, slice_value, write_chunk, write_index}
use pedge.Varlen.Safe.{
  FitsValue, slice_value-FitsValue, value_length-slice_value, write_chunk-Written,
  write_index-Written,
}

HasRoom-one : (ps : List Page) → HasRoom 126 ps → HasRoom 1 ps
HasRoom-one [] h = h
HasRoom-one (p ∷ ps) h = omega arith

-- After the last chunk there is a slot for the index: on the page, or on a new one.
pub make_room-Good :
    (last crowded : Bool) (total left : ℕ) (n : Nvs) (q : Page) (ps : List Page)
    → Sound total left n
    → n.pages ≡ q ∷ ps
    → (last ≡ true → crowded ≡ false → q.entry_num + 1 ≤ 126)
    → let out = (if not last || crowded then create_new_page false else pure tt) n in
      Good total n out (λ _. last ≡ true → HasRoom 1 out.1.pages)
make_room-Good false crowded total left n q ps s e h =
    let (w, k) = create_new_page-Good total left n s in
    (
      w,
      OnOk-map (create_new_page false n).0 (λ _. HasRoom 126 (create_new_page false n).1.pages)
          (λ _. false ≡ true → HasRoom 1 (create_new_page false n).1.pages)
          (λ a room is_last. cc is_last) k,
    )
make_room-Good true true total left n q ps s e h =
    let (w, k) = create_new_page-Good total left n s in
    (
      w,
      OnOk-map (create_new_page false n).0 (λ _. HasRoom 126 (create_new_page false n).1.pages)
          (λ _. true ≡ true → HasRoom 1 (create_new_page false n).1.pages)
          (λ a room is_last. HasRoom-one (create_new_page false n).1.pages room) k,
    )
make_room-Good true false total left n q ps s e h =
    (Went-refl n s, λ is_last. subst (HasRoom 1) (sym e) (h refl refl))

module _ (xts : XtsAes) (laws : IsXtsAes xts) where
  write_index-Good :
      (es : Bytes) (size count total left : ℕ) (n : Nvs)
      → length es ≡ 32
      → Sound total left n
      → HasRoom 1 n.pages
      → Good total n (on_cur_page (write_index xts es size count) n) (λ _. Unit)
  write_index-Good es size count total left n len s room = split n.pages refl
    where
      one_entry :
          (p : Page)
          → IsValid p
          → p.entry_num + 1 ≤ 126
          → OnOk (write_index xts es size count n p) (λ done. Unit {0} × Written p done.1)
      one_entry p valid room =
          OnOk-intro (write_index xts es size count n p) _
            λ done e. write_index-Written xts laws n p es size count len valid room e

      split :
          (ps : List Page)
          → n.pages ≡ ps
          → Good total n (on_cur_page (write_index xts es size count) n) (λ _. Unit)
      split [] e = absurd (subst (HasRoom 1) e room)
      split (p ∷ ps) e =
          on_cur_page-Good_last (write_index xts es size count) (λ _. Unit) total left n p ps s e
            (one_entry p (head-IsValid s e) (subst (HasRoom 1) e room))

-- What is left to show of a loop for its next round.
abbrev pub Again : Value → (Bytes → ℕ → ℕ → ℕ → Action (Unit {0})) → Type 0
Again v again =
    (es : Bytes) (count offset remaining : ℕ)
    → length es ≡ 32
    → Safe (again es count offset remaining) (λ _. Unit)

module _ (xts : XtsAes) (laws : IsXtsAes xts) (v : Value) (fits : FitsValue v) (size : ℕ)
    (again : Bytes → ℕ → ℕ → ℕ → Action (Unit {0})) (again-Safe : Again v again) where
  blob_next-Good :
      (es : Bytes) (count offset remaining total left : ℕ) (n : Nvs)
      → length es ≡ 32
      → Sound total left n
      → ((remaining == 0) ≡ true → HasRoom 1 n.pages)
      → Good total n (blob_next xts v size again es count offset remaining n) (λ _. Unit)
  unfolding blob_next
  blob_next-Good es count offset remaining total left n len s room = split (remaining == 0) room
    where
      index : Action (Unit {0})
      index = on_cur_page (write_index xts es size count)

      rest : Action (Unit {0})
      rest = again es count offset remaining

      split :
          (b : Bool)
          → (b ≡ true → HasRoom 1 n.pages)
          → let next : Action (Unit {0}) = elim b [ true ↦ index | false ↦ rest ] in
            Good total n (next n) (λ _. Unit)
      split true h = write_index-Good xts laws es size count total left n len s (h refl)
      split false h = again-Safe es count offset remaining len total left n s

  blob_turn-Good :
      (count offset room chunk remaining total left : ℕ) (n : Nvs) (q : Page) (ps : List Page)
      (es : Bytes)
      → length es ≡ 32
      → Sound total left n
      → n.pages ≡ q ∷ ps
      → ((remaining == 0) ≡ true → ltb (room - chunk) 32 ≡ false → q.entry_num + 1 ≤ 126)
      → Good total n (blob_turn xts v size again count offset room chunk remaining es n) (λ _. Unit)
  unfolding blob_turn
  blob_turn-Good count offset room chunk remaining total left n q ps es len s e free =
      let turned : Action (Unit {0}) =
        if not (remaining == 0) || ltb (room - chunk) 32 then create_new_page false else pure tt in
      let (w, k) =
        make_room-Good (remaining == 0) (ltb (room - chunk) 32) total left n q ps s e free in
      Good-elim (λ _. blob_next xts v size again es (count + 1) (offset + chunk) remaining)
        (λ _. (remaining == 0) ≡ true → HasRoom 1 (turned n).1.pages) (λ _. Unit) total n
        (turned n).1 (turned n).0 w k
        (λ _ slot.
          blob_next-Good es (count + 1) (offset + chunk) remaining total w.left (turned n).1 len
            w.sound slot)

  blob_round-Good :
      (es : Bytes) (count offset remaining total left : ℕ) (n : Nvs) (p : Page) (ps : List Page)
      → length es ≡ 32
      → Sound total left n
      → n.pages ≡ p ∷ ps
      → Good total n (blob_round xts v size again es count offset remaining p n) (λ _. Unit)
  unfolding blob_round
  blob_round-Good es count offset remaining total left n p ps len s e =
      let k = chunk_size (tailroom p) remaining in
      let chunk = slice_value offset (offset + k) v in
      let rest : Action (Unit {0}) =
        on_cur_page (write_chunk xts es count chunk k)
        >>= blob_turn xts v size again count offset (tailroom p) k (remaining - k) in
      raise_if-Good (ltb 126 (p.entry_num + 1)) assertion_error rest (λ _. Unit) total left n s
        λ in_range.
          let fitting : p.entry_num + 1 + entries_for k ≤ 126 = ground arith in
          on_cur_page-Good (write_chunk xts es count chunk k)
            (blob_turn xts v size again count offset (tailroom p) k (remaining - k))
            (λ es' q. (length es' ≡ 32) × (q.entry_num ≡ p.entry_num + 1 + entries_for k))
            (λ _. Unit) total left n p ps s e
            (OnOk-intro (write_chunk xts es count chunk k n p) _ λ done stored.
              let (w, entries, len') =
                write_chunk-Written xts laws n p es count chunk k (head-IsValid s e) fitting len
                  (slice_value-FitsValue offset (offset + k) v fits)
                  (value_length-slice_value offset k v) stored in
              ((len', entries), w))
            λ es' q facts sound.
              blob_turn-Good count offset (tailroom p) k (remaining - k) total left
                (record n { pages = q ∷ ps }) q ps es' facts.0 sound refl
                (λ last free. ground (arith, facts.1))

-- The rounds of the loop: every chunk fits the page that it is written to, and so does the index.
pub blob_loop-Safe :
    (xts : XtsAes) (laws : IsXtsAes xts) (v : Value) (fits : FitsValue v) (size fuel : ℕ)
    → Again v (blob_loop xts (raise out_of_fuel) fuel v size)
unfolding blob_loop
blob_loop-Safe xts laws v fits size zero es count offset remaining len total left n s =
    (Went-refl n s, tt)
blob_loop-Safe xts laws v fits size (suc fuel) es count offset remaining len total left n s =
    cur_page-Good
      (blob_round xts v size (blob_loop xts (raise out_of_fuel) fuel v size) es count offset
        remaining)
      (λ _. Unit) total left n s
      λ p ps e.
        blob_round-Good xts laws v fits size (blob_loop xts (raise out_of_fuel) fuel v size)
          (blob_loop-Safe xts laws v fits size fuel) es count offset remaining total left n p ps len
          s e

-- After the loop of a blob, whether it returned or raised, the object is sound, was reached by steps
-- and has every entry that it had before, for an entry of 32 bytes and an ASCII text or bytes.
pub write_varlen_binary_data-Keeps :
    (xts : XtsAes) (es : Bytes) (v : Value) (size total left : ℕ) (n : Nvs)
    → IsXtsAes xts
    → FitsValue v
    → length es ≡ 32
    → Sound total left n
    → Keeps total n (write_varlen_binary_data xts es v size n).1
unfolding write_varlen_binary_data
write_varlen_binary_data-Keeps xts es v size total left n laws fits len s =
    Went-Keeps (blob_loop-Safe xts laws v fits size (size + 2) es 0 0 size len total left n s).0
