-- ===== src/Nvs/Monad.antt =====
-- A method of `NVS`: it may raise, and what it had written by then stays written.
use pedge.Prelude.{◌≡◌, refl, List, [], ◌∷◌, Bool, if◌then◌else◌}
use pedge.Exceptions.{Exception, attribute_error, Result, ok, err}
use pedge.State.{Page, Nvs}

abbrev pub Action : Type 0 → Type 0
Action A = Nvs → Result A × Nvs

infixl 5 ◌>>=◌ ◌>>◌
abbrev pub ◌>>=◌ : {A B : Type 0} → Action A → (A → Action B) → Action B
◌>>=◌ m f nvs = let (r, nvs') = m nvs in elim r [ ok a ↦ f a nvs' | err e ↦ (err e, nvs') ]

abbrev pub ◌>>◌ : {B : Type 0} → Action (Unit {0}) → Action B → Action B
m >> k = m >>= λ _. k

abbrev pub pure : {A : Type 0} → A → Action A
pure a nvs = (ok a, nvs)

abbrev pub raise : {A : Type 0} → Exception → Action A
raise e nvs = (err e, nvs)

abbrev pub raise_if : Bool → Exception → Action (Unit {0})
raise_if b e nvs = (if b then err e else ok tt, nvs)

abbrev pub lift : {A : Type 0} → Result A → Action A
lift r nvs = (r, nvs)

abbrev pub get : Action Nvs
get nvs = (ok nvs, nvs)

abbrev pub modify : (Nvs → Nvs) → Action (Unit {0})
modify f nvs = (ok tt, f nvs)

-- `self.cur_page`: before the first page there is no such attribute.
abbrev pub head_page : List Page → Result Page
head_page [] = err attribute_error
head_page (page ∷ pages) = ok page

abbrev pub set_head : Page → List Page → List Page
set_head page [] = []
set_head page (_ ∷ pages) = page ∷ pages

abbrev pub cur_page : Action Page
cur_page nvs = (head_page nvs.pages, nvs)

-- What a call on the current page leaves: its result, and what became of the page.
abbrev pub store_page : {A : Type 0} → A × Page → Action A
store_page (a, self) = do modify (λ n. record n { pages = set_head self n.pages }); pure a

-- A method of `Page`, called on the current page.
abbrev pub on_cur_page : {A : Type 0} → (Nvs → Page → Result (A × Page)) → Action A
on_cur_page f = do nvs ← get; self ← cur_page; done ← lift (f nvs self); store_page done

-- Two calls that returned: so did the first, and the second on its value.
pub >>=-eq-ok :
    {A B : Type 0} (m : Action A) (f : A → Action B) (nvs : Nvs) {b : B}
    → ((m >>= f) nvs).0 ≡ ok b
    → (a : A) × ((m nvs).0 ≡ ok a) × ((f a (m nvs).1).0 ≡ ok b)
>>=-eq-ok {A} {B} m f nvs {b} h = split (m nvs) h
  where
    split :
        (r : Result A × Nvs)
        → (let both : Result B × Nvs = elim r.0 [ ok a ↦ f a r.1 | err e ↦ (err e, r.1) ] in
            both.0 ≡ ok b)
        → (a : A) × (r.0 ≡ ok a) × ((f a r.1).0 ≡ ok b)
    split (ok a, n) h = (a, refl, h)
    split (err e, n) h = cc

-- The same, with the state after both.
pub >>=_lem :
    {A B : Type 0} (m : Action A) (f : A → Action B) (nvs : Nvs) {b : B}
    → ((m >>= f) nvs).0 ≡ ok b
    → (a : A) × ((m nvs).0 ≡ ok a) × ((m >>= f) nvs ≡ f a (m nvs).1)
>>=_lem {A} {B} m f nvs {b} h = split (m nvs) h
  where
    both : Result A × Nvs → Result B × Nvs
    both r = elim r.0 [ ok a ↦ f a r.1 | err e ↦ (err e, r.1) ]

    split : (r : Result A × Nvs) → (both r).0 ≡ ok b → (a : A) × (r.0 ≡ ok a) × (both r ≡ f a r.1)
    split (ok a, n) h = (a, refl, refl)
    split (err e, n) h = cc
