-- ===== src/Csv/Lines.antt =====
-- The lines of a text, and those that are left without the comments.
use pedge.Prelude.{
  All, List, [], ◌∷◌, ◌++◌, ℕ, Bool, true, false, ◌==◌, ◌≡◌, ◌≢◌, ◌∙◌, refl, ap, arith,
  if◌then◌else◌, inl, inr, Bool-cases,
}
use pedge.Python.Bytes.{Str}
use pedge.Csv.{cr, lf, lines, cons_line, without_comments, universal_newlines}

-- No line of the text begins with the sign of a comment; `at_start` tells where the text begins.
abbrev pub NoComment : Bool → Str → Type 0
NoComment at_start [] = Unit
NoComment true (c ∷ s) = (c ≢ b'#') × NoComment (c == lf) s
NoComment false (c ∷ s) = NoComment (c == lf) s

-- What the filter leaves of the lines after the first.
abbrev without_first : List Str → List Str
without_first [] = []
without_first (line ∷ rest) = line ∷ without_comments rest

pub NoComment-false : (s : Str) → NoComment true s → NoComment false s
NoComment-false [] h = tt
NoComment-false (c ∷ s) h = h.1

-- The first line begins as the text does.
pub first_line :
    (c : ℕ) (s : Str) → (line : Str) × (rest : List Str) × (lines (c ∷ s) ≡ (c ∷ line) ∷ rest)
unfolding lines
first_line c s = elim (Bool-cases (c == lf)) [
  | inl e ↦ ([], lines s, rw e refl)
  | inr e ↦ ((cons_parts (lines s)).0, (cons_parts (lines s)).1, rw e ((cons_parts (lines s)).2))
]
  where
    cons_parts :
        (ls : List Str) → (line : Str) × (rest : List Str) × (cons_line c ls ≡ (c ∷ line) ∷ rest)
    cons_parts [] = ([], [], refl)
    cons_parts (l ∷ ls) = (l, ls, refl)

-- If the first line is no comment either, the filter leaves it too.
first-kept :
    (s : Str)
    → NoComment true s
    → without_first (lines s) ≡ lines s
    → without_comments (lines s) ≡ lines s
unfolding lines without_comments
first-kept [] h e = refl
first-kept (c ∷ s) h e =
    let (line, rest, parts) = first_line c s in
    let kept : (c == b'#') ≡ false = ground (arith, h.0) in
    let others : without_first ((c ∷ line) ∷ rest) ≡ (c ∷ line) ∷ rest = rw parts at e in
    rw (parts, kept) others

lines-kept : (s : Str) → NoComment false s → without_first (lines s) ≡ lines s
unfolding lines without_comments
lines-kept [] h = refl
lines-kept (c ∷ s) h = split (c == lf) h (lines-kept s)
  where
    split :
        (b : Bool)
        → NoComment b s
        → (NoComment false s → without_first (lines s) ≡ lines s)
        → (let all = if b then (c ∷ []) ∷ lines s else cons_line c (lines s) in
            without_first all ≡ all)
    split true h ih =
        ap (λ (ls : List Str). (c ∷ []) ∷ ls) (first-kept s h (ih (NoComment-false s h)))
    split false h ih = longer (lines s) (ih h)
      where
        longer :
            (ls : List Str)
            → without_first ls ≡ ls
            → without_first (cons_line c ls) ≡ cons_line c ls
        longer [] e = refl
        longer (l ∷ ls) e = ap (λ (rest : List Str). (c ∷ l) ∷ rest) (tails e)
          where
            tails : {a b : Str} {r t : List Str} → ◌≡◌ {A = List Str} (a ∷ r) (b ∷ t) → r ≡ t
            tails e = cc

-- A text without comments keeps all its lines.
pub without_comments-lines : (s : Str) → NoComment true s → without_comments (lines s) ≡ lines s
without_comments-lines s h = first-kept s h (lines-kept s (NoComment-false s h))

-- No carriage return stands in the text.
abbrev pub NoReturn : Str → Type 0
NoReturn s = All (λ c. c ≢ cr) s

pub universal_newlines-cons :
    (c : ℕ) (s : Str) → c ≢ cr → universal_newlines (c ∷ s) ≡ c ∷ universal_newlines s
unfolding universal_newlines
universal_newlines-cons c [] h = ground (arith, h)
universal_newlines-cons c (d ∷ s) h = ground (arith, h)

pub universal_newlines-append :
    (s t : Str) → NoReturn s → universal_newlines (s ++ t) ≡ s ++ universal_newlines t
universal_newlines-append [] t h = refl
universal_newlines-append (c ∷ s) t h =
    universal_newlines-cons c (s ++ t) h.0
    ∙ ap (λ (r : Str). c ∷ r) (universal_newlines-append s t h.1)

-- The writer's line end becomes a line feed.
pub universal_newlines-crlf :
    (s : Str) → universal_newlines (cr ∷ lf ∷ s) ≡ lf ∷ universal_newlines s
unfolding universal_newlines
universal_newlines-crlf s = universal_newlines-cons lf s (λ e. omega (arith, e))
