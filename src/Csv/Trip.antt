-- ===== src/Csv/Trip.antt =====
-- The text of rows as it is read, and the reader on it.
use pedge.Prelude.{
  All, All-append, List, [], ◌∷◌, ◌++◌, ℕ, ◌==◌, ◌≡◌, ◌≢◌, ◌∙◌, refl, sym, ap, arith, append_assoc,
  Bool-cases, inl, inr,
}
use pedge.Exceptions.{ok, ◌>>=◌}
use pedge.Python.Bytes.{Str}
use pedge.Csv.{
  cr, lf, needs_quotes, doubled, write_field, write_fields, write_csv, universal_newlines, lines,
  start_record, start_field, start, last_record, read_records,
}
use pedge.Csv.Lines.{
  NoReturn, universal_newlines-append, universal_newlines-crlf, universal_newlines-cons,
}
use pedge.Csv.Fields.{NonEmpty, read_records-write_field, read_comma, read_end, reader}

-- A row of two fields or more.
abbrev pub IsRow : List Str → Type 0
IsRow [] = ⊥
IsRow (f ∷ []) = ⊥
IsRow (f ∷ g ∷ fs) = Unit

-- The text as it is read: each row ends with a line feed.
abbrev pub read_fields : List Str → Str
read_fields [] = lf ∷ []
read_fields (f ∷ []) = write_field f ++ (lf ∷ [])
read_fields (f ∷ g ∷ fs) = write_field f ++ (b',' ∷ read_fields (g ∷ fs))

abbrev pub read_text : List (List Str) → Str
read_text [] = []
read_text (row ∷ rows) = read_fields row ++ read_text rows

NonEmpty-middle : (s : Str) (c : ℕ) (t u : Str) → NonEmpty ((s ++ (c ∷ t)) ++ u)
NonEmpty-middle [] c t u = tt
NonEmpty-middle (d ∷ s) c t u = tt

read_fields-NonEmpty : (fs : List Str) (t : Str) → NonEmpty (read_fields fs ++ t)
read_fields-NonEmpty [] t = tt
read_fields-NonEmpty (f ∷ []) t = NonEmpty-middle (write_field f) lf [] t
read_fields-NonEmpty (f ∷ g ∷ fs) t = NonEmpty-middle (write_field f) b',' (read_fields (g ∷ fs)) t

-- The rest of a row, once a field was read.
read_records-rest :
    (f : Str) (fs : List Str) (t : Str) (fields : List Str)
    → read_records (lines (read_fields (f ∷ fs) ++ t)) (reader start_field fields [])
      ≡ (read_records (lines t) start >>= λ records. ok ((fields ++ (f ∷ fs)) ∷ records))
read_records-rest f [] t fields =
    let (state, ended, e) = read_records-write_field start_field f (lf ∷ t) fields tt tt in
    ap (λ (u : Str). read_records (lines u) (reader start_field fields []))
      (append_assoc (write_field f) (lf ∷ []) t)
    ∙ e
    ∙ read_end state t fields f ended
read_records-rest f (g ∷ fs) t fields =
    let rest = read_fields (g ∷ fs) ++ t in
    let (state, ended, e) = read_records-write_field start_field f (b',' ∷ rest) fields tt tt in
    ap (λ (u : Str). read_records (lines u) (reader start_field fields []))
      (append_assoc (write_field f) (b',' ∷ read_fields (g ∷ fs)) t)
    ∙ e
    ∙ read_comma start_field state rest fields f tt ended (read_fields-NonEmpty (g ∷ fs) t)
    ∙ read_records-rest g fs t (fields ++ (f ∷ []))
    ∙ ap (λ (r : List Str). read_records (lines t) start >>= λ records. ok (r ∷ records))
        (append_assoc fields (f ∷ []) (g ∷ fs))

read_records-row :
    (row : List Str) (t : Str)
    → IsRow row
    → read_records (lines (read_fields row ++ t)) start
      ≡ (read_records (lines t) start >>= λ records. ok (row ∷ records))
read_records-row [] t h = absurd h
read_records-row (f ∷ []) t h = absurd h
read_records-row (f ∷ g ∷ fs) t h =
    let rest = read_fields (g ∷ fs) ++ t in
    let (state, ended, e) = read_records-write_field start_record f (b',' ∷ rest) [] tt tt in
    ap (λ (u : Str). read_records (lines u) start)
      (append_assoc (write_field f) (b',' ∷ read_fields (g ∷ fs)) t)
    ∙ e
    ∙ read_comma start_record state rest [] f tt ended (read_fields-NonEmpty (g ∷ fs) t)
    ∙ read_records-rest g fs t (f ∷ [])

pub read_records-read_text :
    (rows : List (List Str))
    → All IsRow rows
    → read_records (lines (read_text rows)) start ≡ ok rows
unfolding read_records lines last_record
read_records-read_text [] h = refl
read_records-read_text (row ∷ rows) h =
    read_records-row row (read_text rows) h.0
    ∙ ap (λ r. r >>= λ (records : List (List Str)). ok (row ∷ records))
        (read_records-read_text rows h.1)

doubled-NoReturn : (f : Str) → NoReturn f → NoReturn (doubled f)
doubled-NoReturn [] h = tt
doubled-NoReturn (c ∷ f) h = elim (Bool-cases (c == b'"')) [
  | inl e ↦ rw e ((λ d. omega (arith, d)), ((λ d. omega (arith, d)), doubled-NoReturn f h.1))
  | inr e ↦ rw e (h.0, doubled-NoReturn f h.1)
]

write_field-NoReturn : (f : Str) → NoReturn f → NoReturn (write_field f)
unfolding write_field
write_field-NoReturn f h = elim (Bool-cases (needs_quotes f)) [
  | inl e ↦ rw e (
    (λ d. omega (arith, d)),
    All-append (λ c. c ≢ cr) (doubled f) (b'"' ∷ []) (doubled-NoReturn f h)
        ((λ d. omega (arith, d)), tt),
  )
  | inr e ↦ rw e h
]

universal_newlines-write_fields :
    (fs : List Str) (t : Str)
    → All NoReturn fs
    → universal_newlines (write_fields fs ++ t) ≡ read_fields fs ++ universal_newlines t
unfolding write_fields
universal_newlines-write_fields [] t h = universal_newlines-crlf t
universal_newlines-write_fields (f ∷ []) t h =
    ap universal_newlines (append_assoc (write_field f) (cr ∷ lf ∷ []) t)
    ∙ universal_newlines-append (write_field f) (cr ∷ lf ∷ t) (write_field-NoReturn f h.0)
    ∙ ap (λ (u : Str). write_field f ++ u) (universal_newlines-crlf t)
    ∙ sym (append_assoc (write_field f) (lf ∷ []) (universal_newlines t))
universal_newlines-write_fields (f ∷ g ∷ fs) t h =
    ap universal_newlines (append_assoc (write_field f) (b',' ∷ write_fields (g ∷ fs)) t)
    ∙ universal_newlines-append (write_field f) (b',' ∷ (write_fields (g ∷ fs) ++ t))
        (write_field-NoReturn f h.0)
    ∙ ap (λ (u : Str). write_field f ++ u)
        (universal_newlines-cons b',' (write_fields (g ∷ fs) ++ t) (λ d. omega (arith, d))
          ∙ ap (λ (u : Str). b',' ∷ u) (universal_newlines-write_fields (g ∷ fs) t h.1))
    ∙ sym (append_assoc (write_field f) (b',' ∷ read_fields (g ∷ fs)) (universal_newlines t))

pub universal_newlines-write_csv :
    (rows : List (List Str))
    → All (All NoReturn) rows
    → universal_newlines (write_csv rows) ≡ read_text rows
unfolding write_csv universal_newlines
universal_newlines-write_csv [] h = refl
universal_newlines-write_csv (row ∷ rows) h =
    universal_newlines-write_fields row (write_csv rows) h.0
    ∙ ap (λ (u : Str). read_fields row ++ u) (universal_newlines-write_csv rows h.1)
