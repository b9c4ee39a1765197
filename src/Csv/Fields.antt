-- ===== src/Csv/Fields.antt =====
-- `csv.reader` on a field that the writer wrote.
use pedge.Prelude.{
  List, [], ◌∷◌, ◌++◌, ℕ, true, false, ◌==◌, ◌≡◌, ◌≢◌, ◌∙◌, inl, inr, refl, sym, ap, arith,
  if◌then◌else◌, Bool-cases, append_assoc, append-nil,
}
use pedge.Exceptions.{Result, ok, err, ◌>>=◌}
use pedge.Python.Bytes.{Str}
use pedge.Csv.{
  lf, is_special, needs_quotes, doubled, write_field, lines, cons_line, State, start_record,
  start_field, in_field, in_quoted_field, quote_in_quoted_field, eat_crnl, Reader, start,
  begin_field, go_on, process_char, process_eol, feed_line, is_done, read_records,
}
use pedge.Csv.Lines.{first_line}
use native.Mathlib.Decide.{ℕ_discrete}

abbrev pub NonEmpty : Str → Type 0
NonEmpty [] = ⊥
NonEmpty (c ∷ s) = Unit

pub NonEmpty-append : (s t : Str) → NonEmpty t → NonEmpty (s ++ t)
NonEmpty-append [] t h = h
NonEmpty-append (c ∷ s) t h = tt

abbrev Records : Type 0
Records = List (List Str)

-- What the reader does after a line.
abbrev after_line : List Str → Reader → Result Records
after_line rest r = elim (is_done r.state) [
  | true ↦ read_records rest start >>= λ (records : Records). ok (r.fields ∷ records)
  | false ↦ read_records rest r
]

>>=-assoc :
    {A B C : Type 0} (m : Result A) (f : A → Result B) (g : B → Result C)
    → ((m >>= f) >>= g) ≡ (m >>= λ a. f a >>= g)
>>=-assoc (ok a) f g = refl
>>=-assoc (err e) f g = refl

-- A character within a line.
read_char :
    (c : ℕ) (t : Str) (r : Reader)
    → c ≢ lf
    → NonEmpty t
    → read_records (lines (c ∷ t)) r ≡ (process_char c r >>= λ r'. read_records (lines t) r')
unfolding lines read_records feed_line
read_char c [] r h some = absurd some
read_char c (d ∷ s) r h some =
    let (line, rest, parts) = first_line d s in
    let inside : (c == lf) ≡ false = ground (arith, h) in
    let there : lines (c ∷ d ∷ s) ≡ (c ∷ d ∷ line) ∷ rest = rw inside (ap (cons_line c) parts) in
    ap (λ (ls : List Str). read_records ls r) there
    ∙ >>=-assoc (process_char c r) (feed_line (d ∷ line)) (after_line rest)
    ∙ ap (λ (ls : List Str). process_char c r >>= λ r'. read_records ls r') (sym parts)

-- The last character of a line.
read_lf :
    (t : Str) (r : Reader)
    → read_records (lines (lf ∷ t)) r
      ≡ (process_char lf r >>= λ r'. after_line (lines t) (process_eol r'))
unfolding lines read_records feed_line
read_lf t r = >>=-assoc (process_char lf r) (feed_line []) (after_line (lines t))

abbrev pub reader : State → List Str → Str → Reader
reader state fields field = record { state = state; fields = fields; field = field }

-- A character that is not special goes to the field.
read_plain :
    (c : ℕ) (t : Str) (fields : List Str) (acc : Str)
    → is_special c ≡ false
    → NonEmpty t
    → read_records (lines (c ∷ t)) (reader in_field fields acc)
      ≡ read_records (lines t) (reader in_field fields (acc ++ (c ∷ [])))
unfolding process_char go_on
read_plain c t fields acc plain some =
    read_char c t (reader in_field fields acc) (ground arith) some ∙ ground arith

read_in_field :
    (f t : Str) (fields : List Str) (acc : Str)
    → needs_quotes f ≡ false
    → NonEmpty t
    → read_records (lines (f ++ t)) (reader in_field fields acc)
      ≡ read_records (lines t) (reader in_field fields (acc ++ f))
read_in_field [] t fields acc plain some =
    ap (λ (a : Str). read_records (lines t) (reader in_field fields a)) (sym (append-nil acc))
read_in_field (c ∷ f) t fields acc plain some =
    read_plain c (f ++ t) fields acc (ground arith) (NonEmpty-append f t some)
    ∙ read_in_field f t fields (acc ++ (c ∷ [])) (ground arith) some
    ∙ ap (λ (a : Str). read_records (lines t) (reader in_field fields a))
        (append_assoc acc (c ∷ []) f)

-- A character in quotes, as the writer wrote it. A line feed ends a line of the file, not the field.
read_quoted_char :
    (c : ℕ) (t : Str) (fields : List Str) (acc : Str)
    → NonEmpty t
    → read_records
        (lines (if c == b'"' then b'"' ∷ b'"' ∷ t else c ∷ t))
        (reader in_quoted_field fields acc)
      ≡ read_records (lines t) (reader in_quoted_field fields (acc ++ (c ∷ [])))
unfolding process_char process_eol
read_quoted_char c t fields acc some = elim (ℕ_discrete c b'"') [
  | yes quote ↦
      ap (λ (k : ℕ). read_records (lines (if k == b'"' then b'"' ∷ b'"' ∷ t else k ∷ t)) in_quotes)
        quote
      ∙ read_char b'"' (b'"' ∷ t) in_quotes (λ e. omega (arith, e)) tt
      ∙ read_char b'"' t (reader quote_in_quoted_field fields acc) (λ e. omega (arith, e)) some
      ∙ ap (λ (k : ℕ). read_records (lines t) (reader in_quoted_field fields (acc ++ (k ∷ []))))
          (sym quote)
  | no other ↦
      ap (λ (u : Str). read_records (lines u) in_quotes)
        {x = if c == b'"' then b'"' ∷ b'"' ∷ t else c ∷ t} {y = c ∷ t} (ground (arith, other))
      ∙ elim (ℕ_discrete c lf) [
        | yes newline ↦
            ap (λ (k : ℕ). read_records (lines (k ∷ t)) in_quotes) newline
            ∙ read_lf t in_quotes
            ∙ ap
                (λ (k : ℕ).
                  read_records (lines t) (reader in_quoted_field fields (acc ++ (k ∷ []))))
                (sym newline)
        | no within ↦ read_char c t in_quotes within some ∙ ground (arith, other)
      ]
]
  where
    in_quotes : Reader
    in_quotes = reader in_quoted_field fields acc

doubled-cons :
    (c : ℕ) (f t : Str)
    → doubled (c ∷ f) ++ t
      ≡ (if c == b'"' then b'"' ∷ b'"' ∷ (doubled f ++ t) else c ∷ (doubled f ++ t))
doubled-cons c f t = elim (Bool-cases (c == b'"')) [ inl e ↦ rw e refl | inr e ↦ rw e refl ]

read_quoted :
    (f t : Str) (fields : List Str) (acc : Str)
    → NonEmpty t
    → read_records (lines (doubled f ++ (b'"' ∷ t))) (reader in_quoted_field fields acc)
      ≡ read_records (lines t) (reader quote_in_quoted_field fields (acc ++ f))
unfolding process_char
read_quoted [] t fields acc some =
    read_char b'"' t (reader in_quoted_field fields acc) (λ e. omega (arith, e)) some
    ∙ ap (λ (a : Str). read_records (lines t) (reader quote_in_quoted_field fields a))
        (sym (append-nil acc))
read_quoted (c ∷ f) t fields acc some =
    ap (λ (u : Str). read_records (lines u) (reader in_quoted_field fields acc))
      (doubled-cons c f (b'"' ∷ t))
    ∙ read_quoted_char c (doubled f ++ (b'"' ∷ t)) fields acc
        (NonEmpty-append (doubled f) (b'"' ∷ t) tt)
    ∙ read_quoted f t fields (acc ++ (c ∷ [])) some
    ∙ ap (λ (a : Str). read_records (lines t) (reader quote_in_quoted_field fields a))
        (append_assoc acc (c ∷ []) f)

-- Where a field begins, at the head of a record or after a comma, and where it ends.
abbrev pub Begins : State → Type 0
Begins start_record = Unit
Begins start_field = Unit
Begins _ = ⊥

pub data Ended (begun : State) (field : Str) : State → Type 0 where
  empty : field ≡ [] → Ended begun field begun
  unquoted : Ended begun field in_field
  quoted : Ended begun field quote_in_quoted_field

read_first :
    (state : State) (c : ℕ) (t : Str) (fields : List Str)
    → Begins state
    → is_special c ≡ false
    → NonEmpty t
    → read_records (lines (c ∷ t)) (reader state fields [])
      ≡ read_records (lines t) (reader in_field fields (c ∷ []))
unfolding process_char begin_field
read_first start_record c t fields b plain some =
    read_char c t (reader start_record fields []) (ground arith) some ∙ ground arith
read_first start_field c t fields b plain some =
    read_char c t (reader start_field fields []) (ground arith) some ∙ ground arith
read_first in_field c t fields b plain some = absurd b
read_first in_quoted_field c t fields b plain some = absurd b
read_first quote_in_quoted_field c t fields b plain some = absurd b
read_first eat_crnl c t fields b plain some = absurd b

read_open_quote :
    (state : State) (t : Str) (fields : List Str)
    → Begins state
    → NonEmpty t
    → read_records (lines (b'"' ∷ t)) (reader state fields [])
      ≡ read_records (lines t) (reader in_quoted_field fields [])
unfolding process_char begin_field
read_open_quote start_record t fields b some =
    read_char b'"' t (reader start_record fields []) (λ e. omega (arith, e)) some
read_open_quote start_field t fields b some =
    read_char b'"' t (reader start_field fields []) (λ e. omega (arith, e)) some
read_open_quote in_field t fields b some = absurd b
read_open_quote in_quoted_field t fields b some = absurd b
read_open_quote quote_in_quoted_field t fields b some = absurd b
read_open_quote eat_crnl t fields b some = absurd b

-- A written field is read back, whatever follows it.
pub read_records-write_field :
    (state : State) (f t : Str) (fields : List Str)
    → Begins state
    → NonEmpty t
    → (ended : State) × Ended state f ended
      × (read_records (lines (write_field f ++ t)) (reader state fields [])
          ≡ read_records (lines t) (reader ended fields f))
unfolding write_field
read_records-write_field state f t fields b some = elim (Bool-cases (needs_quotes f)) [
  | inl e ↦ (
    quote_in_quoted_field,
    quoted,
    rw e (
        ap (λ (u : Str). read_records (lines (b'"' ∷ u)) (reader state fields []))
          (append_assoc (doubled f) (b'"' ∷ []) t)
        ∙ read_open_quote state (doubled f ++ (b'"' ∷ t)) fields b
            (NonEmpty-append (doubled f) (b'"' ∷ t) tt)
        ∙ read_quoted f t fields [] some),
  )
  | inr e ↦ rw e (bare f e)
]
  where
    bare :
        (f : Str)
        → needs_quotes f ≡ false
        → (ended : State) × Ended state f ended
          × (read_records (lines (f ++ t)) (reader state fields [])
              ≡ read_records (lines t) (reader ended fields f))
    bare [] e = (state, empty refl, refl)
    bare (c ∷ f) e = (
      in_field,
      unquoted,
      read_first state c (f ++ t) fields b (ground arith) (NonEmpty-append f t some)
          ∙ read_in_field f t fields (c ∷ []) (ground arith) some,
    )

read_empty_field :
    (state : State) (t : Str) (fields : List Str) (f : Str)
    → Begins state
    → NonEmpty t
    → read_records (lines (b',' ∷ t)) (reader state fields f)
      ≡ read_records (lines t) (reader start_field (fields ++ (f ∷ [])) [])
unfolding process_char begin_field
read_empty_field start_record t fields f b some =
    read_char b',' t (reader start_record fields f) (λ e. omega (arith, e)) some
read_empty_field start_field t fields f b some =
    read_char b',' t (reader start_field fields f) (λ e. omega (arith, e)) some
read_empty_field in_field t fields f b some = absurd b
read_empty_field in_quoted_field t fields f b some = absurd b
read_empty_field quote_in_quoted_field t fields f b some = absurd b
read_empty_field eat_crnl t fields f b some = absurd b

-- A comma ends the field.
pub read_comma :
    (begun state : State) (t : Str) (fields : List Str) (f : Str)
    → Begins begun
    → Ended begun f state
    → NonEmpty t
    → read_records (lines (b',' ∷ t)) (reader state fields f)
      ≡ read_records (lines t) (reader start_field (fields ++ (f ∷ [])) [])
unfolding process_char go_on
read_comma begun state t fields f b (empty e) some = read_empty_field begun t fields f b some
read_comma begun state t fields f b unquoted some =
    read_char b',' t (reader in_field fields f) (λ e. omega (arith, e)) some
read_comma begun state t fields f b quoted some =
    read_char b',' t (reader quote_in_quoted_field fields f) (λ e. omega (arith, e)) some

-- A line feed ends the record, unless nothing of it was read yet.
pub read_end :
    (state : State) (t : Str) (fields : List Str) (f : Str)
    → Ended start_field f state
    → read_records (lines (lf ∷ t)) (reader state fields f)
      ≡ (read_records (lines t) start >>= λ records. ok ((fields ++ (f ∷ [])) ∷ records))
unfolding process_char begin_field go_on process_eol
read_end state t fields f (empty e) = read_lf t (reader start_field fields f)
read_end state t fields f unquoted = read_lf t (reader in_field fields f)
read_end state t fields f quoted = read_lf t (reader quote_in_quoted_field fields f)
