-- ===== src/Nvs/Space.antt =====
-- The pages of an `NVS` and the space that is left for more: the invariant, and what
-- `create_new_page` does under it.
use pedge.Prelude.{
  All, ℕ, zero, suc, ◌+◌, ◌*◌, ◌^◌, ◌≤◌, ◌≡◌, ◌≢◌, refl, arith, length, List, [], ◌∷◌, false, some,
  pos, ◌+ℤ◌,
}
use pedge.Exceptions.{ok, err, insufficient_size_error}
use pedge.State.{Page, Nvs}
use pedge.Page.{mark_previous_full}
use pedge.Page.Bitmap.{IsValid}
use pedge.Page.Init.{MarkedFull, mark_full-MarkedFull, fresh_page, fresh_page-IsValid, init-ok}
use pedge.Nvs.{no_space, take_page, create_new_page}

-- `left` pages can still be made, and with them there will be `total`.
pub record Sound (total left : ℕ) (n : Nvs) : Type 0 where
  pub size : n.size ≡ some (pos (4096 * left))
  pub count : length n.pages + left ≡ total
  pub page_num : n.page_num +ℤ pos 1 ≡ pos (length n.pages)
  pub pages : All IsValid n.pages
  pub small : total ≤ 2 ^ 32

-- The pages after the newest one has been put into state FULL.
abbrev pub ClosedHead : List Page → List Page → Type 0
ClosedHead [] qs = qs ≡ []
ClosedHead (p ∷ ps) qs = (q : Page) × MarkedFull p q × (qs ≡ q ∷ ps)

pub mark_previous_full-ClosedHead :
    (ps : List Page)
    → All IsValid ps
    → (qs : List Page) × (mark_previous_full ps ≡ ok qs) × ClosedHead ps qs
unfolding mark_previous_full
mark_previous_full-ClosedHead [] v = ([], refl, refl)
mark_previous_full-ClosedHead (p ∷ ps) v =
    let (q, e, m) = mark_full-MarkedFull p v.0 in (q ∷ ps, rw e, (q, m, refl))

pub ClosedHead-IsValid :
    (ps qs : List Page)
    → ClosedHead ps qs
    → All IsValid ps
    → All IsValid qs × (length qs ≡ length ps)
ClosedHead-IsValid [] qs e v = rw e (tt, refl)
ClosedHead-IsValid (p ∷ ps) qs (q, m, e) v = rw e ((m.valid, v.1), refl)

no_space_pos : (n : ℕ) → n ≢ 0 → no_space (some (pos n)) ≡ false
unfolding no_space
no_space_pos zero h = absurd (h refl)
no_space_pos (suc n) h = refl

take_page-ok : (left : ℕ) → take_page (some (pos (4096 * suc left))) ≡ ok (some (pos (4096 * left)))
unfolding take_page
take_page-ok left = ground arith

-- The object with one page more.
unfoldable pub with_new_page : ℕ → List Page → Nvs → Nvs
with_new_page left qs n = record n {
  size = some (pos (4096 * left));
  page_num = pos (length n.pages);
  pages = fresh_page (length n.pages) n.version ∷ qs;
}

module _ {total : ℕ} {n : Nvs} where
  -- While a sound object has space, a call raises nothing, puts the newest page into state FULL, makes
  -- an empty one with the next number, takes 4096 bytes off the space, and the object stays sound.
  pub create_new_page-ok :
      (left : ℕ)
      → Sound total (suc left) n
      → (qs : List Page) × ClosedHead n.pages qs
        × (create_new_page false n ≡ (ok tt, with_new_page left qs n))
        × Sound total left (with_new_page left qs n)
  unfolding create_new_page with_new_page
  create_new_page-ok left s =
      let (qs, e, closed) = mark_previous_full-ClosedHead n.pages s.pages in
      let (valid, len) = ClosedHead-IsValid n.pages qs closed s.pages in
      (
        qs,
        closed,
        rw (
          e,
          s.size,
          no_space_pos (4096 * suc left) (omega arith),
          take_page-ok left,
          s.page_num,
          init-ok (length n.pages) n.version (omega (arith, s.count, s.small)),
        ),
        record {
          size = refl;
          count = omega (arith, s.count, len);
          page_num = ground (arith, len);
          pages = (fresh_page-IsValid (length n.pages) n.version, valid);
          small = s.small;
        },
      )

  -- A sound object with no space left raises InsufficientSizeError, after the newest page was put into
  -- state FULL, and stays sound.
  pub create_new_page_full :
      Sound total 0 n
      → (qs : List Page) × ClosedHead n.pages qs
        × (create_new_page false n ≡ (err insufficient_size_error, record n { pages = qs }))
        × Sound total 0 (record n { pages = qs })
  unfolding create_new_page no_space
  create_new_page_full s =
      let (qs, e, closed) = mark_previous_full-ClosedHead n.pages s.pages in
      let (valid, len) = ClosedHead-IsValid n.pages qs closed s.pages in
      (
        qs,
        closed,
        rw (e, s.size),
        record {
          size = s.size;
          count = omega (arith, s.count, len);
          page_num = rw len s.page_num;
          pages = valid;
          small = s.small;
        },
      )
