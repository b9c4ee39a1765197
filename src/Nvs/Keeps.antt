-- ===== src/Nvs/Keeps.antt =====
-- Pages of an `NVS` at two times: the entries of a page, and its header but for the state.
use pedge.Prelude.{
  ℕ, ◌≤◌, ◌<◌, ◌≡◌, ◌∙◌, ◌⊎◌, inl, inr, refl, sym, ap, arith, List, [], ◌∷◌, ◌++◌, get_or,
  append_assoc,
}
use mathlib.Core.Path.{subst}
use pedge.State.{Page, Nvs}
use pedge.Page.Write.{Wrote, entry_offset}
use pedge.Page.Init.{MarkedFull, fresh_page}
use pedge.Nvs.Space.{ClosedHead, with_new_page}
use pedge.Nvs.Reach.{
  Written, unwritten, then_wrote, Step, write, grow, run_out, name, Reach, here, next, Went,
}

-- A page at a later time: no entry of it is gone or changed.
pub record Later (p q : Page) : Type 0 where
  pub entries : p.entry_num ≤ q.entry_num
  pub version : q.version ≡ p.version
  pub kept :
      (j : ℕ)
      → ((4 ≤ j) × (j < 32)) ⊎ ((64 ≤ j) × (j < entry_offset p.entry_num))
      → get_or q.page_buf j 0 ≡ get_or p.page_buf j 0

Later-refl : (p : Page) → Later p p
Later-refl p = record { entries = omega arith; version = refl; kept = λ j side. refl }

Later-trans : {p q r : Page} → Later p q → Later q r → Later p r
Later-trans a b = record {
  entries = omega (arith, a.entries, b.entries);
  version = b.version ∙ a.version;
  kept = λ j side. elim side [
    | inl header ↦ b.kept j (inl header) ∙ a.kept j (inl header)
    | inr entry ↦ b.kept j (inr (entry.0, omega (arith, entry.1, a.entries))) ∙ a.kept j (inr entry)
  ];
}

Wrote-Later : {p q : Page} {out : _} {count : ℕ} → Wrote p out count q → Later p q
Wrote-Later w = record {
  entries = omega (arith, w.entries);
  version = w.version;
  kept = λ j side. elim side [
    | inl header ↦ w.before j (inl header.1)
    | inr entry ↦ w.before j (inr entry)
  ];
}

Written-Later : {p q : Page} → Written p q → Later p q
Written-Later {p} unwritten = Later-refl p
Written-Later (then_wrote w h) = Later-trans (Written-Later w) (Wrote-Later h)

MarkedFull-Later : {p q : Page} → MarkedFull p q → Later p q
MarkedFull-Later m = record {
  entries = omega (arith, m.entry_num);
  version = m.version;
  kept = λ j side. elim side [
    | inl header ↦ m.others j header.0
    | inr entry ↦ m.others j (omega (arith, entry.0))
  ];
}

-- Page by page.
abbrev pub AllLater : List Page → List Page → Type 0
AllLater [] [] = Unit
AllLater [] (q ∷ qs) = ⊥
AllLater (p ∷ ps) [] = ⊥
AllLater (p ∷ ps) (q ∷ qs) = Later p q × AllLater ps qs

-- The pages `ps` at a later time, below pages that were made since.
pub record Kept (ps qs : List Page) : Type 0 where
  pub newer : List Page
  pub older : List Page
  pub pages : qs ≡ newer ++ older
  pub later : AllLater ps older

AllLater-refl : (ps : List Page) → AllLater ps ps
AllLater-refl [] = tt
AllLater-refl (p ∷ ps) = (Later-refl p, AllLater-refl ps)

AllLater-trans : (ps qs rs : List Page) → AllLater ps qs → AllLater qs rs → AllLater ps rs
AllLater-trans [] [] rs a b = b
AllLater-trans [] (q ∷ qs) rs a b = absurd a
AllLater-trans (p ∷ ps) [] rs a b = absurd a
AllLater-trans (p ∷ ps) (q ∷ qs) [] a b = absurd b
AllLater-trans (p ∷ ps) (q ∷ qs) (r ∷ rs) a b =
    (Later-trans a.0 b.0, AllLater-trans ps qs rs a.1 b.1)

-- The later versions of a list of two parts are in two parts.
AllLater-split :
    (newer older rs : List Page)
    → AllLater (newer ++ older) rs
    → (newer' : List Page) × (older' : List Page) × (rs ≡ newer' ++ older') × AllLater older older'
AllLater-split [] older rs a = ([], rs, refl, a)
AllLater-split (p ∷ newer) older [] a = absurd a
AllLater-split (p ∷ newer) older (r ∷ rs) a =
    let (newer', older', e, l) = AllLater-split newer older rs a.1 in
    (r ∷ newer', older', ap (λ (k : List Page). r ∷ k) e, l)

pub Kept-trans : {ps qs rs : List Page} → Kept ps qs → Kept qs rs → Kept ps rs
Kept-trans {ps} a b =
    let (newer, older, e, l) =
      AllLater-split a.newer a.older b.older
        (subst (λ (k : List Page). AllLater k b.older) a.pages b.later) in
    record {
      newer = b.newer ++ newer;
      older = older;
      pages =
          b.pages ∙ ap (λ (k : List Page). b.newer ++ k) e ∙ sym (append_assoc b.newer newer older);
      later = AllLater-trans ps a.older older a.later l;
    }

pub Kept-of : {ps qs : List Page} → AllLater ps qs → Kept ps qs
Kept-of {qs} l = record { newer = []; older = qs; pages = refl; later = l }

pub ClosedHead-AllLater : (ps qs : List Page) → ClosedHead ps qs → AllLater ps qs
ClosedHead-AllLater [] qs e = rw e tt
ClosedHead-AllLater (p ∷ ps) qs (q, m, e) = rw e (MarkedFull-Later m, AllLater-refl ps)

pub Step-Kept : {n m : Nvs} → Step n m → Kept n.pages m.pages
unfolding with_new_page
Step-Kept {n} (write {p} {q} {ps} e w) = rw e (Kept-of (Written-Later w, AllLater-refl ps))
Step-Kept {n} (grow left qs e closed) = record {
  newer = fresh_page _ n.version ∷ [];
  older = qs;
  pages = refl;
  later = ClosedHead-AllLater n.pages qs closed;
}
Step-Kept {n} (run_out qs e closed) = Kept-of (ClosedHead-AllLater n.pages qs closed)
Step-Kept {n} (name idx) = Kept-of (AllLater-refl n.pages)

-- Along every sequence of steps the pages stay in their order, below newer ones, and each has the
-- version, the entries and, but for its state, the header that it had.
pub Reach-Kept : {n m : Nvs} → Reach n m → Kept n.pages m.pages
Reach-Kept {n} here = Kept-of (AllLater-refl n.pages)
Reach-Kept (next r s) = Kept-trans (Reach-Kept r) (Step-Kept s)

-- What a call leaves: a sound object, reached by steps, with every entry that it had.
abbrev pub Keeps : ℕ → Nvs → Nvs → Type 0
Keeps total n m = Went total n m × Kept n.pages m.pages

pub Went-Keeps : {total : ℕ} {n m : Nvs} → Went total n m → Keeps total n m
Went-Keeps w = (w, Reach-Kept w.path)
