-- ===== src/Csv/Whole.antt =====
-- A file that the writer wrote, through text mode, the filter of comments and the reader.
use pedge.Prelude.{
  All, List, [], ◌∷◌, ◌++◌, ℕ, Bool, true, false, ◌==◌, ◌≡◌, ◌≢◌, ◌∙◌, sym, ap, arith, append_assoc,
  Bool-cases, inl, inr,
}
use mathlib.Core.Path.{subst}
use pedge.Exceptions.{ok}
use pedge.Python.Bytes.{Str}
use pedge.Csv.{
  lf, needs_quotes, doubled, write_field, write_csv, lines, without_comments, start, read_records,
  read_csv,
}
use pedge.Csv.Lines.{NoComment, NoComment-false, NoReturn, without_comments-lines}
use pedge.Csv.Trip.{
  IsRow, read_fields, read_text, read_records-read_text, universal_newlines-write_csv,
}

-- What may stand in a file: no carriage return, and no line that is taken for a comment.
abbrev pub IsField : Bool → Str → Type 0
IsField at_start f = NoReturn f × NoComment at_start f

abbrev pub AreFields : List Str → Type 0
AreFields [] = Unit
AreFields (f ∷ fs) = IsField true f × All (IsField false) fs

-- A character that begins no comment may follow any text.
NoComment-append :
    (b : Bool) (s : Str) (c : ℕ) (t : Str)
    → NoComment b s
    → c ≢ b'#'
    → NoComment (c == lf) t
    → NoComment b (s ++ (c ∷ t))
NoComment-append true [] c t h k l = (k, l)
NoComment-append false [] c t h k l = l
NoComment-append true (d ∷ s) c t h k l = (h.0, NoComment-append (d == lf) s c t h.1 k l)
NoComment-append false (d ∷ s) c t h k l = NoComment-append (d == lf) s c t h k l

NoComment-weaken : (b : Bool) (s : Str) → NoComment b s → NoComment false s
NoComment-weaken true s h = NoComment-false s h
NoComment-weaken false s h = h

quote-NoComment : (b : Bool) (s : Str) → NoComment false s → NoComment b (b'"' ∷ s)
quote-NoComment true s g = ((λ d. omega (arith, d)), g)
quote-NoComment false s g = g

same-NoComment :
    (b : Bool) (c : ℕ) (s t : Str)
    → NoComment b (c ∷ s)
    → (NoComment (c == lf) s → NoComment (c == lf) t)
    → NoComment b (c ∷ t)
same-NoComment true c s t h k = (h.0, k h.1)
same-NoComment false c s t h k = k h

tail-NoComment : (b : Bool) (c : ℕ) (s : Str) → NoComment b (c ∷ s) → NoComment (c == lf) s
tail-NoComment true c s h = h.1
tail-NoComment false c s h = h

doubled-NoComment : (b : Bool) (f : Str) → NoComment b f → NoComment b (doubled f)
doubled-NoComment true [] h = tt
doubled-NoComment false [] h = tt
doubled-NoComment b (c ∷ f) h = elim (Bool-cases (c == b'"')) [
  | inl e ↦ rw e (
      quote-NoComment b (b'"' ∷ doubled f)
        (doubled-NoComment false f (NoComment-weaken (c == lf) f (tail-NoComment b c f h))))
  | inr e ↦ rw e (same-NoComment b c f (doubled f) h (doubled-NoComment (c == lf) f))
]

write_field-NoComment :
    (b : Bool) (f : Str) (c : ℕ) (t : Str)
    → NoComment b f
    → c ≢ b'#'
    → NoComment (c == lf) t
    → NoComment b (write_field f ++ (c ∷ t))
unfolding write_field
write_field-NoComment b f c t h k l = elim (Bool-cases (needs_quotes f)) [
  | inr e ↦ rw e (NoComment-append b f c t h k l)
  | inl e ↦ rw e (
      quote-NoComment b ((doubled f ++ (b'"' ∷ [])) ++ (c ∷ t)) (
        subst (NoComment false) (sym (append_assoc (doubled f) (b'"' ∷ []) (c ∷ t))) (
          NoComment-append false (doubled f) b'"' (c ∷ t)
            (doubled-NoComment false f (NoComment-weaken b f h)) (λ d. omega (arith, d))
            (NoComment-append false [] c t tt k l))))
]

read_fields-NoComment :
    (fs : List Str) (t : Str)
    → All (IsField false) fs
    → NoComment true t
    → NoComment false (read_fields fs ++ t)
read_fields-NoComment [] t h k = k
read_fields-NoComment (f ∷ []) t h k =
    subst (NoComment false) (sym (append_assoc (write_field f) (lf ∷ []) t))
      (write_field-NoComment false f lf t h.0.1 (λ d. omega (arith, d)) k)
read_fields-NoComment (f ∷ g ∷ fs) t h k =
    subst (NoComment false) (sym (append_assoc (write_field f) (b',' ∷ read_fields (g ∷ fs)) t)) (
      write_field-NoComment false f b',' (read_fields (g ∷ fs) ++ t) h.0.1 (λ d. omega (arith, d))
        (read_fields-NoComment (g ∷ fs) t h.1 k))

read_text-NoComment :
    (rows : List (List Str)) → All IsRow rows → All AreFields rows → NoComment true (read_text rows)
read_text-NoComment [] r h = tt
read_text-NoComment ([] ∷ rows) r h = absurd r.0
read_text-NoComment ((f ∷ []) ∷ rows) r h = absurd r.0
read_text-NoComment ((f ∷ g ∷ fs) ∷ rows) r h =
    subst (NoComment true)
      (sym (append_assoc (write_field f) (b',' ∷ read_fields (g ∷ fs)) (read_text rows)))
      (write_field-NoComment true f b',' (read_fields (g ∷ fs) ++ read_text rows) h.0.0.1
        (λ d. omega (arith, d))
        (read_fields-NoComment (g ∷ fs) (read_text rows) h.0.1 (read_text-NoComment rows r.1 h.1)))

AreFields-NoReturn : (rows : List (List Str)) → All AreFields rows → All (All NoReturn) rows
AreFields-NoReturn [] h = tt
AreFields-NoReturn ([] ∷ rows) h = (tt, AreFields-NoReturn rows h.1)
AreFields-NoReturn ((f ∷ fs) ∷ rows) h = ((h.0.0.0, each fs h.0.1), AreFields-NoReturn rows h.1)
  where
    each : (fs : List Str) → All (IsField false) fs → All NoReturn fs
    each [] h = tt
    each (f ∷ fs) h = (h.0.0, each fs h.1)

-- Rows of two fields or more, written as a file, are read back from it, comments left out, if no field
-- has a carriage return and no line of the file begins as a comment does.
pub read_csv-write_csv :
    (rows : List (List Str))
    → All IsRow rows
    → All AreFields rows
    → read_csv (write_csv rows) ≡ ok rows
unfolding read_csv
read_csv-write_csv rows r h =
    ap (λ (u : Str). read_records (without_comments (lines u)) start)
      (universal_newlines-write_csv rows (AreFields-NoReturn rows h))
    ∙ ap (λ (ls : List Str). read_records ls start)
        (without_comments-lines (read_text rows) (read_text-NoComment rows r h))
    ∙ read_records-read_text rows r
