-- ===== src/Nvs/Rules.antt =====
-- Rules for actions at one state, where what is known of the current page is kept.
use pedge.Prelude.{All, ℕ, ◌≡◌, refl, sym, List, [], ◌∷◌, Bool, true, false}
use mathlib.Core.Path.{subst}
use pedge.Exceptions.{Result, ok, err, Exception}
use pedge.State.{Page, Nvs}
use pedge.Page.Bitmap.{IsValid}
use pedge.Nvs.Monad.{
  Action, ◌>>=◌, ◌>>◌, lift, raise_if, cur_page, head_page, set_head, store_page, on_cur_page,
}
use pedge.Nvs.Space.{Sound}
use pedge.Nvs.Reach.{Written, Written-Sound, write, here, next, Went, Went-trans, Went-refl, OnOk}

-- What an action that began at `n` has come to.
abbrev pub Good : {A : Type 0} → ℕ → Nvs → Result A × Nvs → (A → Type 0) → Type 0
Good total n out Q = Went total n out.1 × OnOk out.0 Q

pub head-IsValid :
    {total left : ℕ} {n : Nvs} {p : Page} {ps : List Page}
    → Sound total left n
    → n.pages ≡ p ∷ ps
    → IsValid p
head-IsValid {n} {p} {ps} s e = let valid : All IsValid (p ∷ ps) = rw e at s.pages in valid.0

pub cur_page-Good :
    {A : Type 0} (K : Page → Action A) (Q : A → Type 0) (total left : ℕ) (n : Nvs)
    → Sound total left n
    → ((p : Page) (ps : List Page) → n.pages ≡ p ∷ ps → Good total n (K p n) Q)
    → Good total n ((cur_page >>= K) n) Q
cur_page-Good {A} K Q total left n s h = split n.pages refl
  where
    at_head : (k : List Page) → Type 0
    at_head k = Good total n (((λ (m : Nvs). (head_page k, m)) >>= K) n) Q

    split : (ps : List Page) → n.pages ≡ ps → Good total n ((cur_page >>= K) n) Q
    split [] e = subst at_head (sym e) (Went-refl n s, tt)
    split (p ∷ ps) e = subst at_head (sym e) (h p ps e)

pub raise_if-Good :
    {A : Type 0} (b : Bool) (e : Exception) (k : Action A) (Q : A → Type 0) (total left : ℕ)
    (n : Nvs)
    → Sound total left n
    → (b ≡ false → Good total n (k n) Q)
    → Good total n ((raise_if b e >> k) n) Q
raise_if-Good true e k Q total left n s h = (Went-refl n s, tt)
raise_if-Good false e k Q total left n s h = h refl

-- The call, once it is known which page is the current one.
on_cur_page_cons :
    {A B : Type 0} (f : Nvs → Page → Result (A × Page)) (K : A → Action B) (n : Nvs) {p : Page}
    {ps : List Page}
    → n.pages ≡ p ∷ ps
    → (on_cur_page f >>= K) n ≡ ((lift (f n p) >>= store_page) >>= K) n
on_cur_page_cons f K n e =
    λ i. (((λ (m : Nvs). (head_page (e i), m)) >>= λ self. lift (f n self) >>= store_page) >>= K) n

store_page-Good :
    {A B : Type 0} (K : A → Action B) (P : A → Page → Type 0) (Q : B → Type 0) (total left : ℕ)
    (n : Nvs) (p : Page) (ps : List Page)
    → Sound total left n
    → n.pages ≡ p ∷ ps
    → (r : Result (A × Page)) → OnOk r (λ done. P done.0 done.1 × Written p done.1)
    → ((a : A) (q : Page)
        → P a q
        → Sound total left (record n { pages = q ∷ ps })
        → Good total (record n { pages = q ∷ ps }) (K a (record n { pages = q ∷ ps })) Q)
    → Good total n (((lift r >>= store_page) >>= K) n) Q
store_page-Good K P Q total left n p ps s e (ok (a, q)) (pa, w) h =
    let sound = Written-Sound s e w in
    let (went, k) = h a q pa sound in
    subst (λ (l : List Page). Good total n (K a (record n { pages = set_head q l })) Q) (sym e)
      (Went-trans (record { left = left; sound = sound; path = next here (write e w) }) went, k)
store_page-Good K P Q total left n p ps s e (err x) k h = (Went-refl n s, tt)

-- A method of `Page` on the current page, and what follows it.
pub on_cur_page-Good :
    {A B : Type 0} (f : Nvs → Page → Result (A × Page)) (K : A → Action B) (P : A → Page → Type 0)
    (Q : B → Type 0) (total left : ℕ) (n : Nvs) (p : Page) (ps : List Page)
    → Sound total left n
    → n.pages ≡ p ∷ ps
    → OnOk (f n p) (λ done. P done.0 done.1 × Written p done.1)
    → ((a : A) (q : Page)
        → P a q
        → Sound total left (record n { pages = q ∷ ps })
        → Good total (record n { pages = q ∷ ps }) (K a (record n { pages = q ∷ ps })) Q)
    → Good total n ((on_cur_page f >>= K) n) Q
on_cur_page-Good f K P Q total left n p ps s e h k =
    subst (λ out. Good total n out Q) (sym (on_cur_page_cons f K n e))
      (store_page-Good K P Q total left n p ps s e (f n p) h k)

-- A result that is looked at through its equation.
pub OnOk-intro :
    {A : Type 0} (r : Result A) (P : A → Type 0) → ((a : A) → r ≡ ok a → P a) → OnOk r P
OnOk-intro (ok a) P h = h a refl
OnOk-intro (err e) P h = tt

pub OnOk-map :
    {A : Type 0} (r : Result A) (P Q : A → Type 0) → ((a : A) → P a → Q a) → OnOk r P → OnOk r Q
OnOk-map (ok a) P Q f h = f a h
OnOk-map (err e) P Q f h = tt

-- The same where nothing follows.
pub on_cur_page-Good_last :
    {A : Type 0} (f : Nvs → Page → Result (A × Page)) (Q : A → Type 0) (total left : ℕ) (n : Nvs)
    (p : Page) (ps : List Page)
    → Sound total left n
    → n.pages ≡ p ∷ ps
    → OnOk (f n p) (λ done. Q done.0 × Written p done.1)
    → Good total n (on_cur_page f n) Q
on_cur_page-Good_last {A} f Q total left n p ps s e h =
    subst (λ out. Good total n out Q) (sym alone) (after (f n p) h)
  where
    alone : on_cur_page f n ≡ (lift (f n p) >>= store_page) n
    alone = λ i. ((λ (m : Nvs). (head_page (e i), m)) >>= λ self. lift (f n self) >>= store_page) n

    after :
        (r : Result (A × Page))
        → OnOk r (λ done. Q done.0 × Written p done.1)
        → Good total n ((lift r >>= store_page) n) Q
    after (ok (a, q)) (qa, w) = (
      subst (λ (l : List Page). Went total n (record n { pages = set_head q l })) (sym e)
          (record { left = left; sound = Written-Sound s e w; path = next here (write e w) }),
      qa,
    )
    after (err x) k = (Went-refl n s, tt)

-- A result that does not touch the object, and what follows it.
pub lift-Good :
    {A B : Type 0} (r : Result A) (K : A → Action B) (Q : B → Type 0) (total left : ℕ) (n : Nvs)
    → Sound total left n
    → ((a : A) → r ≡ ok a → Good total n (K a n) Q)
    → Good total n ((lift r >>= K) n) Q
lift-Good (ok a) K Q total left n s h = h a refl
lift-Good (err e) K Q total left n s h = (Went-refl n s, tt)
