-- ===== src/Varlen/Fuel.antt =====
-- The rounds that the loop of `write_varlen_binary_data` takes.
use pedge.Prelude.{
  ℕ, zero, suc, ◌+◌, ◌-◌, ◌≤◌, ◌<◌, ◌≡◌, refl, arith, List, [], ◌∷◌, Bool, true, false, not, ltb,
  ◌==◌, ◌||◌, if◌then◌else◌, Option, ℤ, pos, ◌+ℤ◌,
}
use pedge.Exceptions
use pedge.Nvs.Monad
use pedge.Exceptions.{Result, ok, err, assertion_error, insufficient_size_error, out_of_fuel}
use pedge.Python.Bytes.{Bytes}
use pedge.Cipher.{XtsAes}
use pedge.State.{Page, Nvs, Value}
use pedge.Page.{init, set_header, page_header, mark_previous_full}
use pedge.Nvs.{create_new_page, no_space, take_page}
use pedge.Nvs.Monad.{Action, pure, raise, raise_if, lift, on_cur_page, cur_page, ◌>>=◌, ◌>>◌}
use pedge.Nvs.Reach.{OnOk, HasRoom}
use pedge.Nvs.Rules.{OnOk-intro, OnOk-map}
use pedge.Varlen.{
  blob_next, blob_turn, blob_round, blob_loop, chunk_size, tailroom, write_varlen_binary_data,
}
use pedge.Varlen.Headers.{slice_value, write_chunk, write_index}

OnOk-bind :
    {A B : Type 0} (m : Result A) (f : A → Result B) (P : B → Type 0)
    → ((a : A) → OnOk (f a) P)
    → OnOk (Exceptions.◌>>=◌ m f) P
OnOk-bind (ok a) f P h = h a
OnOk-bind (err e) f P h = tt

init-empty : (num : ℤ) (version : ℕ) → OnOk (init num version false) (λ p. p.entry_num + 126 ≤ 126)
unfolding init set_header
init-empty num version = OnOk-bind (page_header num version) _ _ λ h. omega arith

-- After a call that returned, the newest page is empty.
abbrev Fresh : {A : Type 0} → Result A × Nvs → Type 0
Fresh out = OnOk out.0 (λ _. HasRoom 126 out.1.pages)

bind-Fresh :
    {A B : Type 0} (m : Action A) (f : A → Action B)
    → ((a : A) (n : Nvs) → Fresh {A = B} (f a n))
    → (n : Nvs) → Fresh {A = B} ((m >>= f) n)
bind-Fresh {A} {B} m f h n = split (m n).0
  where
    split :
        (r : Result A)
        → (let out : Result B × Nvs = elim r [ ok a ↦ f a (m n).1 | err e ↦ (err e, (m n).1) ] in
            Fresh {A = B} out)
    split (ok a) = h a (m n).1
    split (err e) = tt

lift_page-Fresh :
    (r : Result Page)
    → OnOk r (λ p. p.entry_num + 126 ≤ 126)
    → (n : Nvs) → Fresh ((lift r >>= λ p. Monad.modify (λ n. record n { pages = p ∷ n.pages })) n)
lift_page-Fresh (ok p) h n = h
lift_page-Fresh (err e) h n = tt

create_new_page-Fresh : (n : Nvs) → Fresh (create_new_page false n)
unfolding create_new_page
create_new_page-Fresh n =
    let made : Action (Unit {0}) = lift (init (n.page_num +ℤ pos 1) n.version false) >>= λ p.
    Monad.modify (λ m. record m { pages = p ∷ m.pages }) in
    let numbered : Option ℤ → Nvs → Nvs =
      λ size m. record m { size = size; page_num = n.page_num +ℤ pos 1 } in
    let sized : Option ℤ → Action (Unit {0}) = λ size. Monad.modify (numbered size) >> made in
    let checked : Action (Unit {0}) =
      raise_if (no_space n.size) insufficient_size_error >> (lift (take_page n.size) >>= sized) in
    let marked : List Page → Nvs → Nvs = λ qs m. record m { pages = qs } in
    bind-Fresh (lift (mark_previous_full n.pages)) (λ qs. Monad.modify (marked qs) >> checked)
      (λ qs.
        bind-Fresh (Monad.modify (marked qs)) (λ _. checked)
          λ _.
            bind-Fresh (raise_if (no_space n.size) insufficient_size_error)
              (λ _. lift (take_page n.size) >>= sized)
              λ _. bind-Fresh (lift (take_page n.size)) sized λ size.
                bind-Fresh (Monad.modify (numbered size)) (λ _. made)
                  λ _.
                    lift_page-Fresh (init (n.page_num +ℤ pos 1) n.version false)
                      (init-empty (n.page_num +ℤ pos 1) n.version))
      n

-- Two next rounds that agree on an empty page, where one to `bound` bytes remain.
abbrev EndAlike :
    ℕ → (Bytes → ℕ → ℕ → ℕ → Action (Unit {0})) → (Bytes → ℕ → ℕ → ℕ → Action (Unit {0})) → Type 0
EndAlike bound again again' =
    (es : Bytes) (count offset remaining : ℕ) (n : Nvs)
    → 1 ≤ remaining
    → remaining ≤ bound
    → HasRoom 126 n.pages
    → again es count offset remaining n ≡ again' es count offset remaining n

after-alike :
    {A B : Type 0} (m : Action A) (f g : A → Action B) (n : Nvs)
    → OnOk (m n).0 (λ a. f a (m n).1 ≡ g a (m n).1)
    → (m >>= f) n ≡ (m >>= g) n
after-alike {A} {B} m f g n h = split (m n).0 h
  where
    split :
        (r : Result A)
        → OnOk r (λ a. f a (m n).1 ≡ g a (m n).1)
        → (let out : Result B × Nvs = elim r [ ok a ↦ f a (m n).1 | err e ↦ (err e, (m n).1) ] in
            let out' : Result B × Nvs = elim r [ ok a ↦ g a (m n).1 | err e ↦ (err e, (m n).1) ] in
            out ≡ out')
    split (ok a) h = h
    split (err e) h = refl

bind-alike :
    {A B : Type 0} (m : Action A) (f g : A → Action B)
    → ((a : A) (n : Nvs) → f a n ≡ g a n)
    → (n : Nvs) → (m >>= f) n ≡ (m >>= g) n
bind-alike m f g h n = after-alike m f g n (OnOk-intro (m n).0 _ λ a e. h a (m n).1)

module _ (xts : XtsAes) (v : Value) (size bound : ℕ)
    (again again' : Bytes → ℕ → ℕ → ℕ → Action (Unit {0}))
    (alike : EndAlike bound again again') where
  blob_turn-alike :
      (count offset room k remaining : ℕ) (es : Bytes) (n : Nvs)
      → remaining ≤ bound
      → blob_turn xts v size again count offset room k remaining es n
        ≡ blob_turn xts v size again' count offset room k remaining es n
  unfolding blob_turn blob_next
  blob_turn-alike count offset room k remaining es n small =
      split (remaining == 0) (ltb (room - k) 32) (ground arith)
    where
      index : Action (Unit {0})
      index = on_cur_page (write_index xts es size (count + 1))

      one : Action (Unit {0})
      one = again es (count + 1) (offset + k) remaining

      other : Action (Unit {0})
      other = again' es (count + 1) (offset + k) remaining

      split :
          (b c : Bool)
          → (b ≡ false → 1 ≤ remaining)
          → (let turned : Action (Unit {0}) =
                if not b || c then create_new_page false else pure tt in
              (turned >> elim b [ true ↦ index | false ↦ one ]) n
              ≡ (turned >> elim b [ true ↦ index | false ↦ other ]) n)
      split true c h = refl
      split false c h =
          after-alike (create_new_page false) (λ _. one) (λ _. other) n
            (OnOk-map (create_new_page false n).0
              (λ _. HasRoom 126 (create_new_page false n).1.pages)
              (λ _. one (create_new_page false n).1 ≡ other (create_new_page false n).1)
              (λ _ room'.
                alike es (count + 1) (offset + k) remaining (create_new_page false n).1 (h refl)
                  small room')
              (create_new_page-Fresh n))

  blob_round-alike :
      (es : Bytes) (count offset remaining : ℕ) (p : Page) (n : Nvs)
      → remaining - chunk_size (tailroom p) remaining ≤ bound
      → blob_round xts v size again es count offset remaining p n
        ≡ blob_round xts v size again' es count offset remaining p n
  unfolding blob_round
  blob_round-alike es count offset remaining p n small =
      let k = chunk_size (tailroom p) remaining in
      let chunk = on_cur_page (write_chunk xts es count (slice_value offset (offset + k) v) k) in
      let turn = blob_turn xts v size again count offset (tailroom p) k (remaining - k) in
      let turn' = blob_turn xts v size again' count offset (tailroom p) k (remaining - k) in
      bind-alike (raise_if (ltb 126 (p.entry_num + 1)) assertion_error) (λ _. chunk >>= turn)
        (λ _. chunk >>= turn')
        (λ _ m.
          bind-alike chunk turn turn'
            (λ es' m'. blob_turn-alike count offset (tailroom p) k (remaining - k) es' m' small) m)
        n

module _ (xts : XtsAes) (v : Value) (size : ℕ) (stuck stuck' : Action (Unit {0})) where
  blob_loop-alike :
      (bound fuel fuel' : ℕ)
      → bound ≤ fuel
      → bound ≤ fuel'
      → EndAlike bound (blob_loop xts stuck fuel v size) (blob_loop xts stuck' fuel' v size)
  unfolding blob_loop
  blob_loop-alike bound zero fuel' h h' es count offset remaining n one small room =
      absurd (omega arith)
  blob_loop-alike bound (suc fuel) zero h h' es count offset remaining n one small room =
      absurd (omega arith)
  blob_loop-alike bound (suc fuel) (suc fuel') h h' es count offset remaining n one small room =
      split (blob_loop-alike (bound - 1) fuel fuel' (omega arith) (omega arith)) n.pages room
    where
      round : Page → Action (Unit {0})
      round p = blob_round xts v size (blob_loop xts stuck fuel v size) es count offset remaining p

      round' : Page → Action (Unit {0})
      round' p =
          blob_round xts v size (blob_loop xts stuck' fuel' v size) es count offset remaining p

      split :
          EndAlike (bound - 1) (blob_loop xts stuck fuel v size) (blob_loop xts stuck' fuel' v size)
          → (ps : List Page) → HasRoom 126 ps
          → (lift (Monad.head_page ps) >>= round) n ≡ (lift (Monad.head_page ps) >>= round') n
      split rest [] room = absurd room
      split rest (p ∷ ps) room =
          blob_round-alike xts v size (bound - 1) (blob_loop xts stuck fuel v size)
            (blob_loop xts stuck' fuel' v size) rest es count offset remaining p n (ground arith)

  -- On the first page, which may have little room, a round more.
  blob_loop-ends :
      (fuel fuel' : ℕ) (es : Bytes) (n : Nvs)
      → size < fuel
      → size < fuel'
      → blob_loop xts stuck fuel v size es 0 0 size n
        ≡ blob_loop xts stuck' fuel' v size es 0 0 size n
  unfolding blob_loop
  blob_loop-ends zero fuel' es n h h' = absurd (omega arith)
  blob_loop-ends (suc fuel) zero es n h h' = absurd (omega arith)
  blob_loop-ends (suc fuel) (suc fuel') es n h h' =
      bind-alike cur_page (blob_round xts v size (blob_loop xts stuck fuel v size) es 0 0 size)
        (blob_round xts v size (blob_loop xts stuck' fuel' v size) es 0 0 size)
        (λ p m.
          blob_round-alike xts v size size (blob_loop xts stuck fuel v size)
            (blob_loop xts stuck' fuel' v size)
            (blob_loop-alike size fuel fuel' (omega arith) (omega arith)) es 0 0 size p m
            (ground arith))
        n

-- The loop never comes to the end of the rounds that `write_varlen_binary_data` gives it: with any
-- fuel above the size, and whatever would follow those rounds, it does the same on every object.
pub write_varlen_binary_data-ends :
    (xts : XtsAes) (stuck : Action (Unit {0})) (fuel : ℕ) (es : Bytes) (v : Value) (size : ℕ)
    (n : Nvs)
    → size < fuel
    → write_varlen_binary_data xts es v size n ≡ blob_loop xts stuck fuel v size es 0 0 size n
unfolding write_varlen_binary_data
write_varlen_binary_data-ends xts stuck fuel es v size n h =
    blob_loop-ends xts v size (raise out_of_fuel) stuck (size + 2) fuel es n (omega arith) h
