-- ===== src/Stored/Steps.antt =====
-- The methods of `NVS` that write an entry in the clear leave it in a page of the object.
use pedge.Prelude.{ℕ, ◌≡◌, ◌∙◌, inl, refl, sym, ap, List, [], ◌∷◌, false}
use mathlib.Core.Path.{subst}
use pedge.Exceptions.{Result, ok, err, page_full_error}
use pedge.Python.Bytes.{Bytes}
use pedge.State.{Page, Nvs}
use pedge.Page.Bitmap.{IsValid}
use pedge.Nvs.{create_new_page}
use pedge.Nvs.Monad.{
  Action, head_page, set_head, on_cur_page, store_page, lift, ◌>>=◌, ◌>>◌, >>=_lem,
}
use pedge.Nvs.Space.{Sound, with_new_page}
use pedge.Nvs.Reach.{
  Step, write, grow, run_out, name, Reach, here, next, Went, Safe, create_new_page-Safe,
}
use pedge.Nvs.Rules.{head-IsValid}
use pedge.Entries.{retry, or_on_new_page}
use pedge.Stored.Held.{OnPage, Holds}

Step-encrypt : {n m : Nvs} → Step n m → m.encrypt ≡ n.encrypt
unfolding with_new_page
Step-encrypt (write e w) = refl
Step-encrypt (grow left qs e closed) = refl
Step-encrypt (run_out qs e closed) = refl
Step-encrypt (name idx) = refl

-- No step changes whether the object encrypts.
pub Reach-encrypt : {n m : Nvs} → Reach n m → m.encrypt ≡ n.encrypt
Reach-encrypt here = refl
Reach-encrypt (next r s) = Step-encrypt s ∙ Reach-encrypt r

-- What is left, if it was returned: bytes with a property, in a page.
abbrev pub Left : (Bytes → Type 0) → Result (Unit {0}) × Nvs → Type 0
Left P out = out.0 ≡ ok tt → (bs : Bytes) × P bs × Holds bs out.1.pages

-- An action that leaves them, called on a sound object that does not encrypt.
abbrev pub Leaves : (Bytes → Type 0) → Action (Unit {0}) → Type 0
Leaves P m = (total left : ℕ) (n : Nvs) → Sound total left n → n.encrypt ≡ false → Left P (m n)

-- Two calls that returned, and what is known after the second.
pub >>=_done :
    {A : Type 0} (Q : Result (Unit {0}) × Nvs → Type 0) (m : Action A) (f : A → Action (Unit {0}))
    (n : Nvs)
    → ((a : A) → (m n).0 ≡ ok a → (f a (m n).1).0 ≡ ok tt → Q (f a (m n).1))
    → ((m >>= f) n).0 ≡ ok tt
    → Q ((m >>= f) n)
>>=_done Q m f n h done =
    let (a, ran, both) = >>=_lem m f n done in
    subst Q (sym both)
      (h a ran (subst (λ (out : Result (Unit {0}) × Nvs). out.0 ≡ ok tt) both done))

-- What follows a call leaves them.
pub >>=-Left :
    {A : Type 0} (P : Bytes → Type 0) (m : Action A) (f : A → Action (Unit {0})) (n : Nvs)
    → ((a : A) → (m n).0 ≡ ok a → Left P (f a (m n).1))
    → Left P ((m >>= f) n)
>>=-Left P m f n = >>=_done (λ out. (bs : Bytes) × P bs × Holds bs out.1.pages) m f n

-- A method of `Page`, called on an object, that leaves them on its page.
pub on_cur_page-Leaves_at :
    (P : Bytes → Type 0) (f : Nvs → Page → Result (Unit {0} × Page)) (n : Nvs)
    → ((p q : Page) (ps : List Page)
        → n.pages ≡ p ∷ ps
        → f n p ≡ ok (tt, q)
        → (bs : Bytes) × P bs × OnPage bs q)
    → Left P (on_cur_page f n)
on_cur_page-Leaves_at P f n h done = split n.pages refl done
  where
    after :
        (p : Page) (ps : List Page)
        → n.pages ≡ p ∷ ps
        → (r : Result (Unit {0} × Page)) → f n p ≡ r
        → Left P ((lift r >>= store_page) n)
    after p ps e (ok (tt, q)) is done =
        let (bs, holds, on) = h p q ps e is in
        (bs, holds, subst (λ (k : List Page). Holds bs (set_head q k)) (sym e) (inl on))
    after p ps e (err x) is done = cc

    at_pages : List Page → Result (Unit {0}) × Nvs
    at_pages ps = ((λ (m : Nvs). (head_page ps, m)) >>= λ self. lift (f n self) >>= store_page) n

    split : (ps : List Page) → n.pages ≡ ps → Left P (at_pages ps)
    split [] e done = cc
    split (p ∷ ps) e done = after p ps e (f n p) refl done

-- The same on every object.
pub on_cur_page-Leaves :
    (P : Bytes → Type 0) (f : Nvs → Page → Result (Unit {0} × Page))
    → ((n : Nvs) (p q : Page)
        → IsValid p
        → n.encrypt ≡ false
        → f n p ≡ ok (tt, q)
        → (bs : Bytes) × P bs × OnPage bs q)
    → Leaves P (on_cur_page f)
on_cur_page-Leaves P f h total left n s clear done =
    on_cur_page-Leaves_at P f n (λ p q ps e is. h n p q (head-IsValid s e) clear is) done

-- The action again, after another that is safe.
again-Leaves :
    (P : Bytes → Type 0) (first m : Action (Unit {0}))
    → Safe first (λ _. Unit)
    → Leaves P m
    → Leaves P (first >> m)
again-Leaves P first m safe h total left n s clear =
    let (w, k) = safe total left n s in
    >>=-Left P first (λ _. m) n
      λ _ _. h total w.left (first n).1 w.sound (Reach-encrypt w.path ∙ clear)

-- Trying again on a new page.
pub or_on_new_page-Leaves :
    (P : Bytes → Type 0) (m : Action (Unit {0}))
    → Safe m (λ _. Unit)
    → Leaves P m
    → Leaves P (or_on_new_page m)
unfolding or_on_new_page retry
or_on_new_page-Leaves P m safe h total left n s clear done =
    let (w, k) = safe total left n s in split (m n).0 (m n).1 refl w done
  where
    split :
        (r : Result (Unit {0})) (n' : Nvs)
        → (m n) ≡ (r, n')
        → Went total n n'
        → Left P (retry m r n')
    split (err page_full_error) n' is w done =
        again-Leaves P (create_new_page false) m create_new_page-Safe h total w.left n' w.sound
          (Reach-encrypt w.path ∙ clear) done
    split (ok tt) n' is w done =
        let (bs, holds, on) =
          h total left n s clear (ap (λ (r : Result (Unit {0}) × Nvs). r.0) is) in
        (bs, holds, subst (λ (r : Result (Unit {0}) × Nvs). Holds bs r.1.pages) is on)
    split (err e) n' is w done = cc
