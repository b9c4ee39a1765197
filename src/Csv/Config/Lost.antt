-- ===== src/Csv/Config/Lost.antt =====
-- Values of several lines, and the filter of comments.
use pedge.Prelude.{
  All, All-append, List, [], ◌∷◌, ◌++◌, Bool, true, false, ◌≡◌, ◌≢◌, ◌∙◌, refl, sym, ap, arith,
  append_assoc, ◌==◌, ◌&&◌, not, Bool-cases, inl, inr,
}
use pedge.Python.Bytes.{Str}
use pedge.State.{codes}
use pedge.Csv.{
  cr, lf, needs_quotes, doubled, write_field, write_csv, lines, cons_line, without_comments,
  is_comment, start, read_records, read_csv,
}
use mathlib.Core.Path.{subst}
use pedge.Csv.Lines.{NoReturn, first_line}
use pedge.Csv.Trip.{read_fields, read_text, universal_newlines-write_csv}
use pedge.Csv.Config.{add_string_data}

abbrev pub NoFeed : Str → Type 0
NoFeed s = All (λ c. c ≢ lf) s

-- A line ends at its line feed.
lines-line : (b t : Str) → NoFeed b → lines (b ++ (lf ∷ t)) ≡ (b ++ (lf ∷ [])) ∷ lines t
unfolding lines
lines-line [] t h = refl
lines-line (c ∷ b) t h =
    let inside : (c == lf) ≡ false = ground (arith, h.0) in
    rw inside (ap (cons_line c) (lines-line b t h.1))

-- What stands before a line feed and what stands after it have their own lines.
lines-append : (a t : Str) → lines (a ++ (lf ∷ t)) ≡ lines (a ++ (lf ∷ [])) ++ lines t
unfolding lines
lines-append [] t = refl
lines-append (c ∷ a) t = elim (Bool-cases (c == lf)) [
  | inl e ↦ rw e (ap (λ (ls : List Str). (c ∷ []) ∷ ls) (lines-append a t))
  | inr e ↦ rw e (ap (cons_line c) (lines-append a t) ∙ joined (lines (a ++ (lf ∷ []))) (some a))
]
  where
    IsCons : List Str → Type 0
    IsCons [] = ⊥
    IsCons (l ∷ ls) = Unit {0}

    joined : (ls : List Str) → IsCons ls → cons_line c (ls ++ lines t) ≡ cons_line c ls ++ lines t
    joined [] h = absurd h
    joined (l ∷ ls) h = refl

    some : (a : Str) → IsCons (lines (a ++ (lf ∷ [])))
    some [] = tt
    some (d ∷ a) = let (line, rest, e) = first_line d (a ++ (lf ∷ [])) in subst IsCons (sym e) tt

without_comments-append :
    (ls ms : List Str) → without_comments (ls ++ ms) ≡ without_comments ls ++ without_comments ms
unfolding without_comments
without_comments-append [] ms = refl
without_comments-append (l ∷ ls) ms = elim (Bool-cases (is_comment l)) [
  | inl e ↦ rw e (without_comments-append ls ms)
  | inr e ↦ rw e (ap (λ (ks : List Str). l ∷ ks) (without_comments-append ls ms))
]

without_comments-comment :
    (l : Str) (ms : List Str) → without_comments ((b'#' ∷ l) ∷ ms) ≡ without_comments ms
unfolding without_comments
without_comments-comment l ms = refl

-- The filter takes a line out of the text.
comment_line :
    (p b q : Str)
    → NoFeed b
    → without_comments (lines (p ++ (lf ∷ b'#' ∷ (b ++ (lf ∷ q)))))
      ≡ without_comments (lines (p ++ (lf ∷ q)))
comment_line p b q h =
    ap without_comments (
      lines-append p (b'#' ∷ (b ++ (lf ∷ q)))
      ∙ ap (λ (ls : List Str). lines (p ++ (lf ∷ [])) ++ ls)
          (lines-line (b'#' ∷ b) q ((λ e. omega (arith, e)), h)))
    ∙ without_comments-append (lines (p ++ (lf ∷ []))) ((b'#' ∷ (b ++ (lf ∷ []))) ∷ lines q)
    ∙ ap (λ (ls : List Str). without_comments (lines (p ++ (lf ∷ []))) ++ ls)
        (without_comments-comment (b ++ (lf ∷ [])) (lines q))
    ∙ sym (without_comments-append (lines (p ++ (lf ∷ []))) (lines q))
    ∙ ap without_comments (sym (lines-append p q))

needs_quotes-lf : (a t : Str) → needs_quotes (a ++ (lf ∷ t)) ≡ true
needs_quotes-lf [] t = refl
needs_quotes-lf (c ∷ a) t = ground (arith, needs_quotes-lf a t)

doubled-append : (a t : Str) → doubled (a ++ t) ≡ doubled a ++ doubled t
doubled-append [] t = refl
doubled-append (c ∷ a) t = elim (Bool-cases (c == b'"')) [
  | inl e ↦ rw e (ap (λ (s : Str). b'"' ∷ b'"' ∷ s) (doubled-append a t))
  | inr e ↦ rw e (ap (λ (s : Str). c ∷ s) (doubled-append a t))
]

doubled-NoFeed : (b : Str) → NoFeed b → NoFeed (doubled b)
doubled-NoFeed [] h = tt
doubled-NoFeed (c ∷ b) h = elim (Bool-cases (c == b'"')) [
  | inl e ↦ rw e ((λ d. omega (arith, d)), ((λ d. omega (arith, d)), doubled-NoFeed b h.1))
  | inr e ↦ rw e (h.0, doubled-NoFeed b h.1)
]

-- A written value of two lines at least.
write_field-lf :
    (a t u : Str)
    → write_field (a ++ (lf ∷ t)) ++ u ≡ (b'"' ∷ doubled a) ++ (lf ∷ (doubled t ++ (b'"' ∷ u)))
unfolding write_field
write_field-lf a t u = rw (needs_quotes-lf a t) (
    ap (λ (s : Str). b'"' ∷ s)
      (append_assoc (doubled (a ++ (lf ∷ t))) (b'"' ∷ []) u
        ∙ ap (λ (s : Str). s ++ (b'"' ∷ u)) (doubled-append a (lf ∷ t))
        ∙ append_assoc (doubled a) (doubled (lf ∷ t)) (b'"' ∷ u)))

read_text-append :
    (rows others : List (List Str))
    → read_text (rows ++ others) ≡ read_text rows ++ read_text others
read_text-append [] others = refl
read_text-append (row ∷ rows) others =
    ap (λ (s : Str). read_fields row ++ s) (read_text-append rows others)
    ∙ sym (append_assoc (read_fields row) (read_text rows) (read_text others))

-- The text before the value of a string.
abbrev before_value : Str → Str
before_value key =
    write_field key
    ++ (b','
        ∷ (write_field (codes "data") ++ (b',' ∷ (write_field (codes "string") ++ (b',' ∷ [])))))

read_fields-string :
    (key v u : Str)
    → read_fields (add_string_data (key, v)) ++ u ≡ before_value key ++ (write_field v ++ (lf ∷ u))
unfolding add_string_data
read_fields-string key v u = simp append_assoc refl

abbrev is_plain : Str → Bool
is_plain [] = true
is_plain (c ∷ s) = not (c == cr) && is_plain s

NoReturn-simple : (s : Str) → is_plain s ≡ true → NoReturn s
NoReturn-simple [] h = tt
NoReturn-simple (c ∷ s) h = ((λ e. ground (arith, e, h)), NoReturn-simple s (ground arith))

module _ (before rest : List (List Str)) (key a c : Str) where
  -- The file around a value of two lines at least.
  around :
      (t : Str)
      → read_text (before ++ (add_string_data (key, a ++ (lf ∷ t)) ∷ rest))
        ≡ (read_text before ++ (before_value key ++ (b'"' ∷ doubled a)))
          ++ (lf ∷ (doubled t ++ (b'"' ∷ lf ∷ read_text rest)))
  around t =
      let u = lf ∷ read_text rest in
      let v = a ++ (lf ∷ t) in
      read_text-append before (add_string_data (key, v) ∷ rest)
      ∙ ap (λ (s : Str). read_text before ++ s)
          (read_fields-string key v (read_text rest)
            ∙ ap (λ (s : Str). before_value key ++ s) (write_field-lf a t u)
            ∙ sym (
                append_assoc (before_value key) (b'"' ∷ doubled a)
                  (lf ∷ (doubled t ++ (b'"' ∷ u)))))
      ∙ sym (
          append_assoc (read_text before) (before_value key ++ (b'"' ∷ doubled a))
            (lf ∷ (doubled t ++ (b'"' ∷ u))))

  without_comments-around :
      (b : Str)
      → NoFeed b
      → without_comments (
          lines (
            read_text
              (before ++ (add_string_data (key, a ++ (lf ∷ b'#' ∷ (b ++ (lf ∷ c)))) ∷ rest))))
        ≡ without_comments
            (lines (read_text (before ++ (add_string_data (key, a ++ (lf ∷ c)) ∷ rest))))
  without_comments-around b h =
      let p = read_text before ++ (before_value key ++ (b'"' ∷ doubled a)) in
      let end = b'"' ∷ lf ∷ read_text rest in
      let inner : doubled (b'#' ∷ (b ++ (lf ∷ c))) ++ end
          ≡ b'#' ∷ (doubled b ++ (lf ∷ (doubled c ++ end))) =
        ap (λ (s : Str). b'#' ∷ (s ++ end)) (doubled-append b (lf ∷ c))
        ∙ ap (λ (s : Str). b'#' ∷ s) (append_assoc (doubled b) (lf ∷ doubled c) end) in
      ap (λ (s : Str). without_comments (lines s))
        (around (b'#' ∷ (b ++ (lf ∷ c))) ∙ ap (λ (s : Str). p ++ (lf ∷ s)) inner)
      ∙ comment_line p (doubled b) (doubled c ++ end) (doubled-NoFeed b h)
      ∙ ap (λ (s : Str). without_comments (lines s)) (sym (around c))

  string-NoReturn : (v : Str) → NoReturn key → NoReturn v → All NoReturn (add_string_data (key, v))
  unfolding add_string_data
  string-NoReturn v k h =
      (k, (NoReturn-simple (codes "data") refl, (NoReturn-simple (codes "string") refl, (h, tt))))

  rows-NoReturn :
      (v : Str)
      → NoReturn key
      → NoReturn v
      → All (All NoReturn) before
      → All (All NoReturn) rest
      → All (All NoReturn) (before ++ (add_string_data (key, v) ∷ rest))
  rows-NoReturn v k h r s =
      All-append (All NoReturn) before (add_string_data (key, v) ∷ rest) r
        (string-NoReturn v k h, s)

  -- A line of a value, neither its first nor its last, that begins as a comment does is lost: the file
  -- reads as the file of the value without that line, if nothing in it has a carriage return.
  pub read_csv-comment_line :
      (b : Str)
      → NoFeed b
      → NoReturn key
      → NoReturn a
      → NoReturn b
      → NoReturn c
      → All (All NoReturn) before
      → All (All NoReturn) rest
      → read_csv
          (write_csv (before ++ (add_string_data (key, a ++ (lf ∷ b'#' ∷ (b ++ (lf ∷ c)))) ∷ rest)))
        ≡ read_csv (write_csv (before ++ (add_string_data (key, a ++ (lf ∷ c)) ∷ rest)))
  unfolding read_csv
  read_csv-comment_line b feed k na nb nc r s =
      let plain : lf ≢ cr = λ e. omega (arith, e) in
      let sign : b'#' ≢ cr = λ e. omega (arith, e) in
      let kept = All-append (λ d. d ≢ cr) a (lf ∷ c) na (plain, nc) in
      let line = All-append (λ d. d ≢ cr) b (lf ∷ c) nb (plain, nc) in
      let whole =
        All-append (λ d. d ≢ cr) a (lf ∷ b'#' ∷ (b ++ (lf ∷ c))) na (plain, (sign, line)) in
      let long = before ++ (add_string_data (key, a ++ (lf ∷ b'#' ∷ (b ++ (lf ∷ c)))) ∷ rest) in
      let short = before ++ (add_string_data (key, a ++ (lf ∷ c)) ∷ rest) in
      ap (λ (s : Str). read_records (without_comments (lines s)) start)
        (universal_newlines-write_csv long
          (rows-NoReturn (a ++ (lf ∷ b'#' ∷ (b ++ (lf ∷ c)))) k whole r s))
      ∙ ap (λ (ls : List Str). read_records ls start) (without_comments-around b feed)
      ∙ ap (λ (s : Str). read_records (without_comments (lines s)) start)
          (sym (universal_newlines-write_csv short (rows-NoReturn (a ++ (lf ∷ c)) k kept r s)))
