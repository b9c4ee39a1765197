-- ===== src/Stored/Held.antt =====
-- Bytes that stand in the entries of a page, in the pages of an object, and in its image.
use pedge.Prelude.{
  All, ℕ, ◌+◌, ◌-◌, ◌*◌, ◌≤◌, ◌<◌, ◌≡◌, ◌∙◌, ◌⊎◌, inl, inr, refl, sym, ap, arith, List, [], ◌∷◌,
  ◌++◌, length, get_or, reverse, take, drop, length-drop, length-append, take-append_left,
  drop-append_left, drop-append_eq, drop-drop, get_or_ext, get_or-append_left, get_or-append_right,
  length-reverse, get_or-take, get_or-drop, append-nil,
}
use mathlib.Core.Path.{subst}
use native.Mathlib.Decide.{dec_lt}
use mathlib.Core.List.{reverse-append}
use pedge.Python.Bytes.{Bytes, slice, erased}
use pedge.Python.Slices.{length-slice}
use pedge.State.{Page}
use pedge.Page.Bitmap.{IsValid}
use pedge.Page.Write.{entry_offset, Wrote}
use pedge.Nvs.{join_pages}
use pedge.Nvs.Keeps.{Later, AllLater, Kept}
use pedge.Nvs.Close.{
  IsImage, length-join_pages, join_pages-append, All-IsWhole, All-reverse, IsWhole,
}

pub record OnPage (bs : Bytes) (p : Page) : Type 0 where
  pub slot : ℕ
  pub inside : entry_offset slot + length bs ≤ entry_offset p.entry_num
  pub stored : (i : ℕ) → i < length bs → get_or p.page_buf (entry_offset slot + i) 0 ≡ get_or bs i 0

abbrev pub Holds : Bytes → List Page → Type 0
Holds bs [] = ⊥
Holds bs (p ∷ ps) = OnPage bs p ⊎ Holds bs ps

pub Later-OnPage : {bs : Bytes} {p q : Page} → Later p q → OnPage bs p → OnPage bs q
Later-OnPage l on = record {
  slot = on.slot;
  inside = omega (arith, on.inside, l.entries);
  stored = λ i lt.
      l.kept (entry_offset on.slot + i) (inr (omega arith, omega (arith, on.inside)))
      ∙ on.stored i lt;
}

AllLater-Holds : (bs : Bytes) (ps qs : List Page) → AllLater ps qs → Holds bs ps → Holds bs qs
AllLater-Holds bs [] qs l h = absurd h
AllLater-Holds bs (p ∷ ps) [] l h = absurd l
AllLater-Holds bs (p ∷ ps) (q ∷ qs) l (inl on) = inl (Later-OnPage l.0 on)
AllLater-Holds bs (p ∷ ps) (q ∷ qs) l (inr h) = inr (AllLater-Holds bs ps qs l.1 h)

Holds-append : (bs : Bytes) (newer older : List Page) → Holds bs older → Holds bs (newer ++ older)
Holds-append bs [] older h = h
Holds-append bs (p ∷ newer) older h = inr (Holds-append bs newer older h)

-- Nothing that stands in the pages is lost.
pub Kept-Holds : (bs : Bytes) {ps qs : List Page} → Kept ps qs → Holds bs ps → Holds bs qs
Kept-Holds bs {ps} k h =
    subst (Holds bs) (sym k.pages)
      (Holds-append bs k.newer k.older (AllLater-Holds bs ps k.older k.later h))

-- Bytes at an entry of the image.
pub record InImage (bs image : Bytes) : Type 0 where
  pub slot : ℕ
  pub inside : 32 * slot + length bs ≤ length image
  pub found : slice (32 * slot) (32 * slot + length bs) image ≡ bs

InImage-append_left : (bs xs ys : Bytes) → InImage bs xs → InImage bs (xs ++ ys)
InImage-append_left bs xs ys h =
    let a = 32 * h.slot in
    let n = a + length bs - a in
    record {
      slot = h.slot;
      inside = omega (arith, length-append xs ys, h.inside);
      found =
          ap (take n) (drop-append_left a xs ys (omega (arith, h.inside)))
          ∙ take-append_left n (drop a xs) ys (omega (arith, length-drop a xs, h.inside))
          ∙ h.found;
    }

InImage-append_right :
    (bs xs ys : Bytes) (k : ℕ) → length xs ≡ 32 * k → InImage bs ys → InImage bs (xs ++ ys)
InImage-append_right bs xs ys k len h =
    let a = 32 * h.slot in
    let b = 32 * (k + h.slot) in
    record {
      slot = k + h.slot;
      inside = omega (arith, length-append xs ys, h.inside, len);
      found =
          ap (take (b + length bs - b)) (
            ap (λ j. drop j (xs ++ ys)) {x = b} {y = length xs + a} (omega (arith, len))
            ∙ sym (drop-drop (length xs) a (xs ++ ys))
            ∙ ap (drop a) (drop-append_eq (length xs) xs ys refl))
          ∙ ap (λ j. take j (drop a ys)) {x = b + length bs - b} {y = a + length bs - a}
              (omega arith)
          ∙ h.found;
    }

OnPage-InImage : (bs : Bytes) (p : Page) → IsValid p → OnPage bs p → InImage bs p.page_buf
OnPage-InImage bs p v on =
    let a = entry_offset on.slot in
    let inside : a + length bs ≤ length p.page_buf =
      omega (arith, on.inside, v.room, v.length_buf) in
    let here : slice a (a + length bs) p.page_buf ≡ bs =
      get_or_ext 0 (slice a (a + length bs) p.page_buf) bs
        (length-slice a (a + length bs) p.page_buf inside ∙ omega arith)
        (λ i lt.
          let below : i < length bs =
            omega (arith, length-slice a (a + length bs) p.page_buf inside) in
          get_or-take (a + length bs - a) (drop a p.page_buf) i 0 (omega (arith, below))
          ∙ get_or-drop a p.page_buf i (a + i) 0 refl
          ∙ on.stored i below) in
    record {
      slot = 2 + on.slot;
      inside = omega (arith, inside);
      found =
          ap (λ j. slice j (j + length bs) p.page_buf) {x = 32 * (2 + on.slot)} {y = a}
            (omega arith)
          ∙ here;
    }

Holds-InImage :
    (bs : Bytes) (ps : List Page)
    → All IsValid ps
    → Holds bs ps
    → InImage bs (join_pages (reverse ps))
unfolding join_pages
Holds-InImage bs [] v h = absurd h
Holds-InImage bs (p ∷ ps) v h =
    let apart : join_pages (reverse (p ∷ ps)) ≡ join_pages (reverse ps) ++ p.page_buf =
      ap join_pages (reverse-append (p ∷ []) ps)
      ∙ join_pages-append (reverse ps) (p ∷ [])
      ∙ ap (λ bs. join_pages (reverse ps) ++ bs) (append-nil p.page_buf) in
    subst (InImage bs) (sym apart) (by_page (Holds-InImage bs ps v.1) h)
  where
    by_page :
        (Holds bs ps → InImage bs (join_pages (reverse ps)))
        → OnPage bs p ⊎ Holds bs ps
        → InImage bs (join_pages (reverse ps) ++ p.page_buf)
    by_page older (inl on) =
        InImage-append_right bs (join_pages (reverse ps)) p.page_buf (128 * length ps)
          (omega (
            arith,
            length-join_pages (reverse ps) (All-reverse IsWhole ps (All-IsWhole ps v.1)),
            length-reverse ps,
          ))
          (OnPage-InImage bs p v.0 on)
    by_page older (inr h) = InImage-append_left bs (join_pages (reverse ps)) p.page_buf (older h)

-- What stands in the pages of a closed object stands in its image.
pub IsImage-InImage :
    (bs : Bytes) (total : ℕ) (older : List Page) {image : Bytes}
    → All IsValid older
    → IsImage total older image
    → Holds bs older
    → InImage bs image
IsImage-InImage bs total older v is h =
    subst (InImage bs) (sym is.layout) (
      InImage-append_left bs (join_pages (reverse older)) (erased 4096)
        (Holds-InImage bs older v h))

-- Bytes that were just written.
pub Wrote-OnPage :
    {p q : Page} {bs : Bytes} {count : ℕ}
    → Wrote p bs count q
    → length bs ≤ 32 * count
    → OnPage bs q
Wrote-OnPage {p} w fits = record {
  slot = p.entry_num;
  inside = omega (arith, w.entries);
  stored = w.stored;
}

-- An entry and the data right after it, as one.
pub Wrote-OnPage_both :
    {p m q : Page} {es payload : Bytes} {count : ℕ}
    → Wrote p es 1 m
    → Wrote m payload count q
    → length es ≡ 32
    → length payload ≤ 32 * count
    → OnPage (es ++ payload) q
Wrote-OnPage_both {p} {m} {q} {es} {payload} w₁ w₂ len fits = record {
  slot = p.entry_num;
  inside = omega (arith, w₁.entries, w₂.entries, length-append es payload);
  stored = λ i lt. elim (dec_lt i 32) [
    | yes low ↦
        w₂.before (entry_offset p.entry_num + i) (inr (omega arith, omega (arith, w₁.entries)))
        ∙ w₁.stored i (omega arith)
        ∙ sym (get_or-append_left es payload i 0 (omega arith))
    | no high ↦
        let j = i - 32 in
        ap (λ k. get_or q.page_buf k 0) {x = entry_offset p.entry_num + i}
          {y = entry_offset m.entry_num + j} (omega (arith, w₁.entries))
        ∙ w₂.stored j (omega (arith, length-append es payload))
        ∙ sym (get_or-append_right es payload i j 0 (omega arith))
  ];
}
