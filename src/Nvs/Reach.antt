-- ===== src/Nvs/Reach.antt =====
-- What the methods do to an `NVS`, as a step relation: they write entries to the newest page, make
-- a page, find that there is no space for one, or count a namespace.
use pedge.Prelude.{
  All, ℕ, zero, suc, ◌*◌, ◌+◌, ◌≤◌, ◌≡◌, ◌∙◌, ap, arith, length, List, [], ◌∷◌, false, some, pos,
}
use pedge.Exceptions.{Result, ok, err}
use pedge.Python.Bytes.{Bytes}
use pedge.State.{Page, Nvs}
use pedge.Page.Bitmap.{IsValid}
use pedge.Page.Write.{Wrote}
use pedge.Page.Init.{fresh_page}
use pedge.Nvs.{create_new_page}
use pedge.Nvs.Space.{Sound, ClosedHead, with_new_page, create_new_page-ok, create_new_page_full}
use pedge.Nvs.Monad.{Action, ◌>>=◌, lift}

-- Entries stored on a page one after the other.
pub data Written (p : Page) : Page → Type 0 where
  unwritten : Written p p
  then_wrote :
      {q r : Page} {out : Bytes} {count : ℕ} → Written p q → Wrote q out count r → Written p r

pub Written-IsValid : {p q : Page} → IsValid p → Written p q → IsValid q
Written-IsValid v unwritten = v
Written-IsValid v (then_wrote w h) = h.valid

pub data Step (n : Nvs) : Nvs → Type 0 where
  write :
      {p q : Page} {ps : List Page}
      → n.pages ≡ p ∷ ps
      → Written p q
      → Step n (record n { pages = q ∷ ps })
  grow :
      (left : ℕ) (qs : List Page)
      → n.size ≡ some (pos (4096 * suc left))
      → ClosedHead n.pages qs
      → Step n (with_new_page left qs n)
  run_out :
      (qs : List Page)
      → n.size ≡ some (pos 0)
      → ClosedHead n.pages qs
      → Step n (record n { pages = qs })
  name : (idx : ℕ) → Step n (record n { namespace_idx = idx })

pub data Reach (n : Nvs) : Nvs → Type 0 where
  here : Reach n n
  next : {m r : Nvs} → Reach n m → Step m r → Reach n r

pub Reach-trans : {n m r : Nvs} → Reach n m → Reach m r → Reach n r
Reach-trans a here = a
Reach-trans a (next b s) = next (Reach-trans a b) s

pub Written-Sound :
    {total left : ℕ} {n : Nvs} {p q : Page} {ps : List Page}
    → Sound total left n
    → n.pages ≡ p ∷ ps
    → Written p q
    → Sound total left (record n { pages = q ∷ ps })
Written-Sound {n} {p} {ps} s e w =
    let valid : All IsValid (p ∷ ps) = rw e at s.pages in
    record {
      size = s.size;
      count = omega (arith, s.count, ap length e);
      page_num = s.page_num ∙ ap (λ (k : List Page). pos (length k)) e;
      pages = (Written-IsValid valid.0 w, valid.1);
      small = s.small;
    }

-- An object that came from `n` by steps and still is sound.
pub record Went (total : ℕ) (n m : Nvs) : Type 0 where
  pub left : ℕ
  pub sound : Sound total left m
  pub path : Reach n m

pub Went-trans : {total : ℕ} {n m r : Nvs} → Went total n m → Went total m r → Went total n r
Went-trans a b = record { left = b.left; sound = b.sound; path = Reach-trans a.path b.path }

pub Went-refl : {total left : ℕ} (n : Nvs) → Sound total left n → Went total n n
Went-refl {left} n s = record { left = left; sound = s; path = here }

-- A result, if there is one, has a property.
abbrev pub OnOk : {A : Type 0} → Result A → (A → Type 0) → Type 0
OnOk (ok a) P = P a
OnOk (err e) P = Unit

-- An action takes steps only, whether it returns or raises.
abbrev pub Safe : {A : Type 0} → Action A → (A → Type 0) → Type 0
Safe m P = (total left : ℕ) (n : Nvs) → Sound total left n → Went total n (m n).1 × OnOk (m n).0 P

Safe-elim :
    {A B : Type 0} (f : A → Action B) (P : A → Type 0) (Q : B → Type 0)
    → ((a : A) → P a → Safe (f a) Q)
    → (total : ℕ) (n m : Nvs) (r : Result A) → Went total n m
    → OnOk r P
    → let out : Result B × Nvs = elim r [ ok a ↦ f a m | err e ↦ (err e, m) ] in
      Went total n out.1 × OnOk out.0 Q
Safe-elim f P Q safe total n m (ok a) w h =
    let (w', k) = safe a h total w.left m w.sound in (Went-trans w w', k)
Safe-elim f P Q safe total n m (err e) w h = (w, tt)

pub Safe->>= :
    {A B : Type 0} (m : Action A) (f : A → Action B) (P : A → Type 0) (Q : B → Type 0)
    → Safe m P
    → ((a : A) → P a → Safe (f a) Q)
    → Safe (m >>= f) Q
Safe->>= m f P Q hm hf total left n s =
    let (w, h) = hm total left n s in Safe-elim f P Q hf total n (m n).1 (m n).0 w h

-- The same at one state, where more is known of it after the first action.
pub Good-elim :
    {A B : Type 0} (f : A → Action B) (P : A → Type 0) (Q : B → Type 0) (total : ℕ) (n m : Nvs)
    (r : Result A)
    → Went total n m
    → OnOk r P
    → ((a : A) → P a → Went total m (f a m).1 × OnOk (f a m).0 Q)
    → let out : Result B × Nvs = elim r [ ok a ↦ f a m | err e ↦ (err e, m) ] in
      Went total n out.1 × OnOk out.0 Q
Good-elim f P Q total n m (ok a) w h k = let (w', q) = k a h in (Went-trans w w', q)
Good-elim f P Q total n m (err e) w h k = (w, tt)

pub Safe-lift : {A : Type 0} (r : Result A) (P : A → Type 0) → OnOk r P → Safe (lift r) P
Safe-lift r P h total left n s = (Went-refl n s, h)

-- The newest page is there, and can take `k` entries more.
abbrev pub HasRoom : ℕ → List Page → Type 0
HasRoom k [] = ⊥
HasRoom k (p ∷ ps) = p.entry_num + k ≤ 126

-- Making a page is a step, also where it raises; a page that was made is empty.
pub create_new_page-Good :
    (total left : ℕ) (n : Nvs)
    → Sound total left n
    → Went total n (create_new_page false n).1
      × OnOk (create_new_page false n).0 (λ _. HasRoom 126 (create_new_page false n).1.pages)
create_new_page-Good total zero n s =
    let (qs, closed, e, sound) = create_new_page_full s in
    rw e (record { left = 0; sound = sound; path = next here (run_out qs s.size closed) }, tt)
create_new_page-Good total (suc left) n s =
    let (qs, closed, e, sound) = create_new_page-ok left s in
    rw e (
      record { left = left; sound = sound; path = next here (grow left qs s.size closed) },
      unfold with_new_page fresh_page in (omega arith),
    )

pub OnOk-weaken : {A : Type 0} (P : A → Type 0) (r : Result A) → OnOk r P → OnOk r (λ _. Unit {0})
OnOk-weaken P (ok a) h = tt
OnOk-weaken P (err e) h = tt

pub create_new_page-Safe : Safe (create_new_page false) (λ _. Unit)
create_new_page-Safe total left n s =
    let (w, h) = create_new_page-Good total left n s in
    (w, OnOk-weaken _ (create_new_page false n).0 h)
