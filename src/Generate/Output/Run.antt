-- ===== src/Generate/Output/Run.antt =====
-- A run of `generate` with its files, and the `generate` of rows.
use pedge.Prelude.{◌≡◌, ap, List, [], ◌∷◌, Bool, true, false, Option, none, some, ℤ}
use pedge.Exceptions
use pedge.Exceptions.{
  Exception, Result, ok, err, or_raise, guard, os_error, system_exit, success, failure, minus_two,
  ok-injective,
}
use pedge.Python.Bytes.{Bytes, Str}
use pedge.Python.Utf8.{decode}
use pedge.Cipher.{XtsAes}
use pedge.Nvs.{nvs_open}
use pedge.Generate.{Row, check_size, is_bin_path, page_version, generate, encryption_key}
use pedge.Csv.{read_input}
use pedge.Disk.{Disk, IsDisk, DiskAction, ◌>>=◌, lift, >>=-eq-ok, lift->>=-eq-ok}
use pedge.Keys.{Draws, set_target_filepath, generate_key}
use pedge.Generate.Output.{Args, made_key, files_at, image_of, write_output, generate_file}
use pedge.Generate.Output.Outcome.{write_output-eq-ok}

made_key-eq-ok :
    {D : Type 0} (on : Bool) (key : Option Bytes) (generated : DiskAction D Str) (d : D)
    {k : Option Bytes} {d' : D}
    → made_key on key generated d ≡ (ok k, d')
    → encryption_key on key (generated d).0 ≡ ok k
unfolding made_key encryption_key
made_key-eq-ok {D} on key generated d {k} {d'} = by_option on key
  where
    made :
        (r : Result Str × D) {k : Option Bytes} {d' : D}
        → (let both : Result (Option Bytes) × D = elim r.0 [
          | err e ↦ (err e, r.1)
          | ok a ↦ (ok (some a), r.1)
        ] in
            both ≡ (ok k, d'))
        → (Exceptions.◌>>=◌ r.0 λ key. ok (some key)) ≡ ok k
    made (ok a, after) h = ap (λ (p : Result (Option Bytes) × D). p.0) h
    made (err e, after) h = cc

    by_option :
        (on : Bool) (key : Option Bytes)
        → made_key on key generated d ≡ (ok k, d')
        → encryption_key on key (generated d).0 ≡ ok k
    by_option true none h = made (generated d) h
    by_option true (some []) h = made (generated d) h
    by_option true (some (b ∷ bs)) h = ap (λ (p : Result (Option Bytes) × D). p.0) h
    by_option false none h = ap (λ (p : Result (Option Bytes) × D). p.0) h
    by_option false (some bs) h = ap (λ (p : Result (Option Bytes) × D). p.0) h

module _ {D : Type 0} (disk : Disk D) (xts : XtsAes) (cwd : Str) (args : Args)
    (hmac : Bytes → Bytes → Bytes) (draws : Draws) where
  -- The rows of the input file, as they are once the output is open.
  abbrev pub rows_at : D → Result (List Row)
  rows_at d =
      Exceptions.◌>>=◌ (or_raise (disk.read_file d args.input) os_error)
        λ contents. Exceptions.◌>>=◌ (decode contents) read_input

  -- A run with its output path, the key that it would make, the disk with the output open, and the
  -- image that `generate` returns for the rows, which the output file holds in the end.
  pub record Ran (on : Bool) (key : Option Bytes) (before after : D) : Type 0 where
    pub outdir : Str
    pub path : Str
    pub made : D
    pub opened : D
    pub rows : List Row
    pub image : Bytes
    pub target :
        set_target_filepath disk args.key_args.outdir args.output before ≡ (ok (outdir, path), made)
    pub read : rows_at opened ≡ ok rows
    pub generated :
        generate xts
          (files_at disk xts cwd args opened)
          (generate_key disk hmac (record args.key_args { outdir = outdir }) draws made).0
          args.size
          args.output
          args.version
          on
          key
          rows
        ≡ ok image
    pub written : disk.read_file after path ≡ some image

  image_of-generate :
      (input_size : ℤ) (on : Bool) (key k : Option Bytes) (generated : Result Bytes) (e : D)
      {image : Bytes}
      → check_size args.size ≡ ok input_size
      → guard (is_bin_path args.output) (system_exit failure) ≡ ok tt
      → encryption_key on key generated ≡ ok k
      → image_of disk xts cwd args input_size on k e ≡ ok image
      → (rows : List Row) × (rows_at e ≡ ok rows)
        × (generate xts
              (files_at disk xts cwd args e)
              generated
              args.size
              args.output
              args.version
              on
              key
              rows
            ≡ ok image)
  unfolding image_of generate
  image_of-generate input_size on key k generated e sized named keyed h =
      let (nvs, p, h₁) =
        Exceptions.>>=-eq-ok (nvs_open input_size (page_version args.version) on k) _ h in
      let (contents, q, h₂) =
        Exceptions.>>=-eq-ok (or_raise (disk.read_file e args.input) os_error) _ h₁ in
      let (text, r, h₃) = Exceptions.>>=-eq-ok (decode contents) _ h₂ in
      let (rows, s, h₄) = Exceptions.>>=-eq-ok (read_input text) _ h₃ in
      (rows, rw (q, r) s, rw (sized, named, keyed, p) h₄)

  -- A run that returns has written the image that `generate` returns for the rows of the input file,
  -- with the key that `generate_key` gives for the output directory, on a disk that gives back what
  -- was written.
  pub generate_file-Ran :
      (on : Bool) (key : Option Bytes) (d : D) {d' : D}
      → IsDisk disk
      → generate_file disk xts cwd args hmac draws on key d ≡ (ok tt, d')
      → Ran on key d d'
  unfolding generate_file
  generate_file-Ran on key d {d'} laws h =
      let key_of = λ (target : Str × Str).
        made_key on key
          (generate_key disk hmac (record args.key_args { outdir = target.0 }) draws) in
      let finish = λ (n : ℤ) (target : Str × Str) (k : Option Bytes).
        write_output disk xts cwd args n target.1 on k in
      let to_path = λ (n : ℤ) (u : Unit {0}).
        set_target_filepath disk args.key_args.outdir args.output >>= λ target.
        key_of target >>= finish n target in
      let (n, sized, h₁) =
        lift->>=-eq-ok (check_size args.size)
          (λ n. lift (guard (is_bin_path args.output) (system_exit failure)) >>= to_path n) d h in
      let (u, named, h₂) =
        lift->>=-eq-ok (guard (is_bin_path args.output) (system_exit failure)) (to_path n) d h₁ in
      let (target, made, found, h₃) =
        >>=-eq-ok (set_target_filepath disk args.key_args.outdir args.output)
          (λ target. key_of target >>= finish n target) d h₂ in
      let (k, kept, keyed, h₄) = >>=-eq-ok (key_of target) (finish n target) made h₃ in
      let (image, imaged, written) =
        write_output-eq-ok disk xts cwd args laws n target.1 on k kept h₄ in
      let opened = disk.write_file target.1 [] kept in
      let generated =
        (generate_key disk hmac (record args.key_args { outdir = target.0 }) draws made).0 in
      let (rows, read, all) =
        image_of-generate n on key k generated opened sized named
          (made_key-eq-ok on key
            (generate_key disk hmac (record args.key_args { outdir = target.0 }) draws) made keyed)
          imaged in
      record {
        outdir = target.0;
        path = target.1;
        made = made;
        opened = opened;
        rows = rows;
        image = image;
        target = found;
        read = read;
        generated = all;
        written = written;
      }
