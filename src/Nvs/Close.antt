-- ===== src/Nvs/Close.antt =====
-- `NVS.__exit__`: its loop, the pages that it makes and the image of the closed object.
use pedge.Prelude.{
  All, All-append, ℕ, zero, suc, ◌+◌, ◌*◌, ◌<◌, ◌≡◌, ◌∙◌, refl, sym, ap, arith, append_assoc,
  append-nil, length-reverse, length, length-append, List, [], ◌∷◌, ◌++◌, reverse, true, none, some,
  pos, ◌+ℤ◌,
}
use mathlib.Core.Path.{subst}
use mathlib.Core.List.{reverse-append}
use pedge.Exceptions.{Result, ok, err}
use pedge.Python.Bytes.{Bytes, erased, length-erased}
use pedge.State.{Page, Nvs}
use pedge.Page.{init}
use pedge.Page.Bitmap.{IsValid}
use pedge.Nvs.{
  create_new_page, no_space, fill_pages, join_pages, get_binary_data, close_rounds, nvs_close,
}
use pedge.Nvs.Reach.{Reach, here, next, Reach-trans, grow, run_out}
use pedge.Nvs.Keeps.{Kept, Kept-of, Kept-trans, Reach-Kept, ClosedHead-AllLater}
use pedge.Nvs.Space.{
  Sound, ClosedHead, ClosedHead-IsValid, mark_previous_full-ClosedHead, with_new_page,
  create_new_page-ok, create_new_page_full,
}

-- A page of 4096 bytes.
abbrev pub IsWhole : Page → Type 0
IsWhole p = length p.page_buf ≡ 4096

pub All-IsWhole : (ps : List Page) → All IsValid ps → All IsWhole ps
All-IsWhole [] v = tt
All-IsWhole (p ∷ ps) v = (v.0.length_buf, All-IsWhole ps v.1)

pub length-join_pages :
    (ps : List Page) → All IsWhole ps → length (join_pages ps) ≡ 4096 * length ps
unfolding join_pages
length-join_pages [] v = omega arith
length-join_pages (p ∷ ps) v =
    omega (arith, length-append p.page_buf (join_pages ps), length-join_pages ps v.1, v.0)

-- What closing leaves: the pages of the partition and the reserved page, which is erased.
pub record Closed (total : ℕ) (m : Nvs) : Type 0 where
  pub older : List Page
  pub reserved : Page
  pub pages : m.pages ≡ reserved ∷ older
  pub count : length older ≡ total
  pub valid : All IsValid older
  pub blank : reserved.page_buf ≡ erased 4096

reserved_page : ℕ → Page
reserved_page version = record {
  entry_num = 0;
  bitmap_array = [];
  version = version;
  page_buf = erased 4096;
}

reserved-Closed :
    (total : ℕ) (n : Nvs)
    → Sound total 0 n
    → (m : Nvs) × (create_new_page true (record n { size = none }) ≡ (ok tt, m))
      × (c : Closed total m) × ClosedHead n.pages c.older
unfolding create_new_page no_space init reserved_page
reserved-Closed total n s =
    let (qs, e, closed) = mark_previous_full-ClosedHead n.pages s.pages in
    let (valid, len) = ClosedHead-IsValid n.pages qs closed s.pages in
    (
      record n {
        size = none;
        page_num = n.page_num +ℤ pos 1;
        pages = reserved_page n.version ∷ qs;
      },
      rw e,
      record {
        older = qs;
        reserved = reserved_page n.version;
        pages = refl;
        count = omega (arith, len, s.count);
        valid = valid;
        blank = refl;
      },
      closed,
    )

-- The pages of a closed object are those of one that was reached by steps, the newest put into state
-- FULL.
pub record ClosedFrom (n : Nvs) (older : List Page) : Type 0 where
  pub last : Nvs
  pub path : Reach n last
  pub head : ClosedHead last.pages older

-- With a round for every page left and one more, the loop ends as it should.
pub fill_pages-Closed :
    (left total fuel : ℕ) (n : Nvs)
    → Sound total left n
    → left < fuel
    → (m : Nvs) × (fill_pages fuel n ≡ (ok tt, m)) × (c : Closed total m) × ClosedFrom n c.older
unfolding fill_pages
fill_pages-Closed left total zero n s h = absurd (omega arith)
fill_pages-Closed zero total (suc fuel) n s h =
    let (qs, closed, e, sound) = create_new_page_full s in
    let (m, done, c, head) = reserved-Closed total (record n { pages = qs }) sound in
    (
      m,
      rw e done,
      c,
      record {
        last = record n { pages = qs };
        path = next here (run_out qs s.size closed);
        head = head;
      },
    )
fill_pages-Closed (suc left) total (suc fuel) n s h =
    let (qs, closed, e, sound) = create_new_page-ok left s in
    let (m, done, c, from) =
      fill_pages-Closed left total fuel (with_new_page left qs n) sound (omega arith) in
    (
      m,
      rw e done,
      c,
      record {
        last = from.last;
        path = Reach-trans (next here (grow left qs s.size closed)) from.path;
        head = from.head;
      },
    )

pub All-reverse : {A : Type 0} (P : A → Type 0) (xs : List A) → All P xs → All P (reverse xs)
All-reverse P [] h = h
All-reverse P (x ∷ xs) h =
    subst (All P) (sym (reverse-append (x ∷ []) xs))
      (All-append P (reverse xs) (x ∷ []) (All-reverse P xs h.1) (h.0, tt))

pub join_pages-append : (ps qs : List Page) → join_pages (ps ++ qs) ≡ join_pages ps ++ join_pages qs
unfolding join_pages
join_pages-append [] qs = refl
join_pages-append (p ∷ ps) qs =
    ap (λ bs. p.page_buf ++ bs) (join_pages-append ps qs)
    ∙ sym (append_assoc p.page_buf (join_pages ps) (join_pages qs))

-- The image of a closed object: its pages in the order in which they were made, then 4096 erased
-- bytes.
pub record IsImage (total : ℕ) (older : List Page) (image : Bytes) : Type 0 where
  pub layout : image ≡ join_pages (reverse older) ++ erased 4096
  pub length_image : length image ≡ 4096 * (total + 1)

pub get_binary_data-IsImage :
    (total : ℕ) (m : Nvs) (c : Closed total m) → IsImage total c.older (get_binary_data m)
unfolding get_binary_data
get_binary_data-IsImage total m c =
    let older = c.older in
    let split : join_pages (reverse m.pages) ≡ join_pages (reverse older) ++ erased 4096 =
      ap (λ ps. join_pages (reverse ps)) c.pages
      ∙ ap join_pages (reverse-append (c.reserved ∷ []) older)
      ∙ join_pages-append (reverse older) (c.reserved ∷ [])
      ∙ ap (λ bs. join_pages (reverse older) ++ bs) (last_page c.reserved c.blank) in
    record {
      layout = split;
      length_image = omega (
        arith,
        ap length split,
        length-append (join_pages (reverse older)) (erased 4096),
        length-erased 4096,
        length-join_pages (reverse older) (All-reverse IsWhole older (All-IsWhole older c.valid)),
        length-reverse older,
        c.count,
      );
    }
  where
    last_page : (p : Page) → p.page_buf ≡ erased 4096 → join_pages (p ∷ []) ≡ erased 4096
    last_page p e = unfold join_pages in (append-nil p.page_buf ∙ e)

close_rounds_enough : (left : ℕ) → left < close_rounds (some (pos (4096 * left)))
unfolding close_rounds
close_rounds_enough left = omega arith

-- Closing a sound object returns, from an object that was reached by steps.
pub nvs_close-ClosedFrom :
    (total left : ℕ) (n : Nvs)
    → Sound total left n
    → (m : Nvs) × (nvs_close n ≡ (ok (get_binary_data m), m))
      × (c : Closed total m) × ClosedFrom n c.older
unfolding nvs_close
nvs_close-ClosedFrom total left n s =
    let (m, done, c, from) =
      fill_pages-Closed left total (close_rounds n.size) n s
        (rw s.size (close_rounds_enough left)) in
    (m, ap after done, c, from)
  where
    after : Result (Unit {0}) × Nvs → Result Bytes × Nvs
    after (r, n) = elim r [ ok a ↦ (ok (get_binary_data n), n) | err e ↦ (err e, n) ]

-- Closing a sound object returns. The image is its pages, to whose entries nothing happened, those
-- made to fill the partition, and 4096 erased bytes: 4096 bytes for each page and the last.
pub nvs_close-ok :
    (total left : ℕ) (n : Nvs)
    → Sound total left n
    → (m : Nvs) × (nvs_close n ≡ (ok (get_binary_data m), m))
      × (c : Closed total m) × Kept n.pages c.older
      × IsImage total c.older (get_binary_data m)
nvs_close-ok total left n s =
    let (m, done, c, from) = nvs_close-ClosedFrom total left n s in
    let kept =
      Kept-trans (Reach-Kept from.path)
        (Kept-of (ClosedHead-AllLater from.last.pages c.older from.head)) in
    (m, done, c, kept, get_binary_data-IsImage total m c)
