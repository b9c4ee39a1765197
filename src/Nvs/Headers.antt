-- ===== src/Nvs/Headers.antt =====
-- The headers of the pages of an `NVS`: number, version and checksum.
use pedge.Prelude.{
  ℕ, ◌-◌, ◌≤◌, ◌<◌, ◌≡◌, ◌∙◌, ◌⊎◌, inl, inr, refl, sym, ap, arith, List, [], ◌∷◌, length, get_or,
  set, length-set, get_or-set_self, get_or-set_ne,
}
use mathlib.Core.Path.{subst}
use pedge.Python.Bytes.{
  Bytes, slice, set_slice, erased, length-erased, length-set_slice, slice-set_slice,
}
use pedge.Python.Slices.{
  slice_alike, slice-set_slice_before, get_or-set_slice_before, get_or-set_slice_in,
}
use pedge.Python.Struct.{le_bytes, from_le, length-le_bytes, from_le-le_bytes}
use pedge.State.{Page, Nvs, version1, version2, active}
use pedge.Page.{checksum}
use pedge.Page.Bitmap.{IsValid}
use pedge.Page.Init.{
  checksum-lt, versioned, unsummed_header, header_bytes, length-unsummed_header, fresh_page,
  fresh_page-IsValid,
}
use pedge.Nvs.Space.{ClosedHead, with_new_page}
use pedge.Nvs.Reach.{
  Written, unwritten, then_wrote, Step, write, grow, run_out, name, Reach, here, next,
}

abbrev pub IsVersion : ℕ → Type 0
IsVersion v = (v ≡ version1) ⊎ (v ≡ version2)

-- A header with a number, a version, and the checksum of all but the state and itself.
pub record HasHeader (n v : ℕ) (p : Page) : Type 0 where
  pub number : slice 4 8 p.page_buf ≡ le_bytes 4 n
  pub version : get_or p.page_buf 8 0 ≡ v
  pub sum : from_le (slice 28 32 p.page_buf) ≡ checksum (slice 4 28 p.page_buf)

-- A page that has the same bytes there has the same header.
HasHeader-alike :
    (n v : ℕ) (p q : Page)
    → IsValid p
    → IsValid q
    → ((j : ℕ) → 4 ≤ j → j < 32 → get_or q.page_buf j 0 ≡ get_or p.page_buf j 0)
    → HasHeader n v p
    → HasHeader n v q
HasHeader-alike n v p q vp vq same h =
    let part = λ (a b : ℕ) (low : 4 ≤ a) (high : b ≤ 32).
      slice_alike p.page_buf q.page_buf a b (omega (arith, vp.length_buf, high))
        (omega (arith, vq.length_buf, high))
        λ j below above. same j (omega (arith, low, below)) (omega (arith, high, above)) in
    record {
      number = part 4 8 (omega arith) (omega arith) ∙ h.number;
      version = same 8 (omega arith) (omega arith) ∙ h.version;
      sum =
          ap from_le (part 28 32 (omega arith) (omega arith))
          ∙ h.sum
          ∙ ap checksum (sym (part 4 28 (omega arith) (omega arith)));
    }

versioned-set : (w : Bytes) (v : ℕ) → IsVersion v → versioned w v ≡ set w 8 v
versioned-set w v (inl e) = rw e refl
versioned-set w v (inr e) = rw e refl

-- The header before its checksum has its number and its version.
unsummed_header_parts :
    (n v : ℕ)
    → IsVersion v
    → (slice 4 8 (unsummed_header n v) ≡ le_bytes 4 n) × (get_or (unsummed_header n v) 8 0 ≡ v)
unfolding unsummed_header
unsummed_header_parts n v is =
    let start = set_slice (erased 32) 0 4 (le_bytes 4 active) in
    let w = set_slice start 4 8 (le_bytes 4 n) in
    let len_start : length start ≡ 32 =
      length-set_slice (erased 32) 0 4 (le_bytes 4 active) (omega arith)
        (omega (arith, length-erased 32)) (omega (arith, length-le_bytes 4 active))
      ∙ length-erased 32 in
    let len : length w ≡ 32 =
      length-set_slice start 4 8 (le_bytes 4 n) (omega arith) (omega arith)
        (omega (arith, length-le_bytes 4 n))
      ∙ len_start in
    (
      ap (slice 4 8) (versioned-set w v is)
          ∙ slice_alike w (set w 8 v) 4 8 (omega arith) (omega (arith, length-set w 8 v))
              (λ j below above. get_or-set_ne w 8 j v 0 (λ e. omega (arith, e, above)))
          ∙ slice-set_slice start 4 8 (le_bytes 4 n) (omega (arith, length-le_bytes 4 n))
              (omega arith),
      ap (λ (u : Bytes). get_or u 8 0) (versioned-set w v is)
          ∙ get_or-set_self w 8 v 0 (omega arith),
    )

-- A new page has its header.
pub fresh_page-HasHeader : (n v : ℕ) → IsVersion v → HasHeader n v (fresh_page n v)
unfolding fresh_page header_bytes
fresh_page-HasHeader n v is =
    let u = unsummed_header n v in
    let sum = le_bytes 4 (checksum (slice 4 28 u)) in
    let h = set_slice u 28 32 sum in
    let len_u = length-unsummed_header n v in
    let len_sum = length-le_bytes 4 (checksum (slice 4 28 u)) in
    let len_h : length h ≡ 32 =
      length-set_slice u 28 32 sum (omega arith) (omega (arith, len_u)) (omega (arith, len_sum))
      ∙ len_u in
    let buf = set_slice (erased 4096) 0 32 h in
    let len_buf : length buf ≡ 4096 =
      length-set_slice (erased 4096) 0 32 h (omega arith) (omega (arith, length-erased 4096))
        (omega (arith, len_h))
      ∙ length-erased 4096 in
    let byte = λ (j : ℕ) (below : j < 32).
      get_or-set_slice_in (erased 4096) 0 32 h j (omega (arith, len_h))
        (omega (arith, length-erased 4096)) (omega arith) below
      ∙ ap (λ (k : ℕ). get_or h k 0) {x = j - 0} {y = j} (omega arith) in
    let part = λ (a b : ℕ) (high : b ≤ 32).
      slice_alike h buf a b (omega (arith, len_h, high)) (omega (arith, len_buf, high))
        (λ j low below. byte j (omega (arith, high, below))) in
    let (number, version) = unsummed_header_parts n v is in
    let summed : slice 4 28 buf ≡ slice 4 28 u =
      part 4 28 (omega arith)
      ∙ slice-set_slice_before u 4 28 28 32 sum (omega arith) (omega arith) (omega (arith, len_sum))
          (omega (arith, len_u)) in
    record {
      number =
          part 4 8 (omega arith)
          ∙ slice-set_slice_before u 4 8 28 32 sum (omega arith) (omega arith)
              (omega (arith, len_sum)) (omega (arith, len_u))
          ∙ number;
      version =
          byte 8 (omega arith)
          ∙ get_or-set_slice_before u 28 32 sum 8 (omega (arith, len_sum)) (omega (arith, len_u))
              (omega arith)
          ∙ version;
      sum =
          ap from_le (
            part 28 32 (omega arith)
            ∙ slice-set_slice u 28 32 sum (omega (arith, len_sum)) (omega (arith, len_u)))
          ∙ from_le-le_bytes 4 (checksum (slice 4 28 u)) (checksum-lt (slice 4 28 u))
          ∙ ap checksum (sym summed);
    }

-- Pages, the newest first: each has the header of its place in the order of their making.
abbrev pub Numbered : ℕ → List Page → Type 0
Numbered v [] = Unit
Numbered v (p ∷ ps) = (IsValid p × HasHeader (length ps) v p) × Numbered v ps

Written-HasHeader :
    (n v : ℕ) {p r : Page} → Written p r → IsValid p × HasHeader n v p → IsValid r × HasHeader n v r
Written-HasHeader n v unwritten h = h
Written-HasHeader n v {p} {r} (then_wrote {q} w wrote) h =
    let (valid, header) = Written-HasHeader n v w h in
    (
      wrote.valid,
      HasHeader-alike n v q r valid wrote.valid (λ j low below. wrote.before j (inl below)) header,
    )

pub ClosedHead-Numbered :
    (v : ℕ) (ps qs : List Page)
    → ClosedHead ps qs
    → Numbered v ps
    → Numbered v qs × (length qs ≡ length ps)
ClosedHead-Numbered v [] qs e h = rw e (tt, refl)
ClosedHead-Numbered v (p ∷ ps) qs (q, m, e) h = rw e (
  (
    (
      m.valid,
      HasHeader-alike (length ps) v p q h.0.0 m.valid (λ j low below. m.others j low) h.0.1,
    ),
    h.1,
  ),
  refl,
)

Step-Numbered :
    (v : ℕ) {n m : Nvs}
    → IsVersion v
    → Step n m
    → (n.version ≡ v) × Numbered v n.pages
    → (m.version ≡ v) × Numbered v m.pages
unfolding with_new_page
Step-Numbered v {n} is (write {p} {q} {ps} e w) (same, h) =
    let old : Numbered v (p ∷ ps) = subst (Numbered v) e h in
    (same, (Written-HasHeader (length ps) v w old.0, old.1))
Step-Numbered v {n} is (grow left qs e closed) (same, h) =
    let (old, len) = ClosedHead-Numbered v n.pages qs closed h in
    (
      same,
      (
        rw (same, len)
            (fresh_page-IsValid (length n.pages) v, fresh_page-HasHeader (length n.pages) v is),
        old,
      ),
    )
Step-Numbered v {n} is (run_out qs e closed) (same, h) =
    (same, (ClosedHead-Numbered v n.pages qs closed h).0)
Step-Numbered v is (name idx) h = h

-- Along every sequence of steps the pages, if they have a version of the format, keep headers with
-- it, with their numbers in the order of their making, and with the checksum of the rest of the
-- header.
pub Reach-Numbered :
    (v : ℕ) {n m : Nvs}
    → IsVersion v
    → n.version ≡ v
    → Numbered v n.pages
    → Reach n m
    → (m.version ≡ v) × Numbered v m.pages
Reach-Numbered v is same h here = (same, h)
Reach-Numbered v is same h (next r s) = Step-Numbered v is s (Reach-Numbered v is same h r)
