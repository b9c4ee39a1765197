-- ===== src/Generate/Output/Outcome.antt =====
-- What `generate` leaves on the disk.
use pedge.Prelude.{
  ◌≡◌, ◌≢◌, ◌∙◌, ◌⊎◌, inl, inr, refl, sym, ap, [], Bool, false, Option, none, some, ℤ, Option-cases,
}
use mathlib.Core.Path.{subst}
use pedge.Exceptions.{Exception, Result, ok, err, or_raise, os_error, system_exit, minus_two}
use pedge.Python.Bytes.{Bytes, Str}
use pedge.Python.Path.{split_dir, is_empty}
use pedge.Cipher.{XtsAes}
use pedge.Disk.{Disk, IsDisk, ◌>>=◌, ◌>>◌, change}
use pedge.Generate.Output.{Args, image_of, remove_output, close_output, write_output}

-- The output file after the `with` statement: an image, nothing, or an empty file.
abbrev pub IsLeft : {D : Type 0} → Disk D → Str → Result Bytes → Result (Unit {0}) → D → Type 0
IsLeft disk output made r d' =
    ((image : Bytes) × (made ≡ ok image) × (r ≡ ok tt) × (disk.read_file d' output ≡ some image))
    ⊎ (((made ≡ err (system_exit minus_two))
          × (r ≡ err (system_exit minus_two))
          × (disk.read_file d' output ≡ none))
        ⊎ ((e : Exception) × (e ≢ system_exit minus_two)
            × (made ≡ err e)
            × (r ≡ err e)
            × (disk.read_file d' output ≡ some [])))

module _ {D : Type 0} (disk : Disk D) (xts : XtsAes) (cwd : Str) (args : Args)
    (laws : IsDisk disk) where
  close_output-IsLeft :
      (output : Str) (made : Result Bytes) (d : D)
      → disk.read_file d output ≡ some []
      → is_empty (split_dir output).1 ≡ false
      → let done = close_output disk xts cwd args output made d in
        IsLeft disk output made done.0 done.1
  unfolding close_output remove_output
  close_output-IsLeft output (ok image) d h named =
      inl (image, refl, refl, laws.read_file-write_file output image d)
  close_output-IsLeft output (err (system_exit minus_two)) d h named =
      inr (inl (refl, refl, rw named (laws.read_file-remove_file output d)))
  close_output-IsLeft output (err e) d h named = inr (inr (e, (λ q. cc), refl, refl, h))

  -- The `with` statement without its input, and with it.
  write_output_by :
      (input_size : ℤ) (output : Str) (on : Bool) (key : Option Bytes) (d : D) (o : Option Bytes)
      → disk.read_file d args.input ≡ o
      → write_output disk xts cwd args input_size output on key d ≡ elim o [
        | none ↦ (err os_error, d)
        | some contents ↦
            close_output disk xts cwd args output
              (image_of disk xts cwd args input_size on key (disk.write_file output [] d))
              (disk.write_file output [] d)
      ]
  unfolding write_output
  write_output_by input_size output on key d o h =
      ap
        (λ (o : Option Bytes).
          ((λ (d : D). (or_raise o os_error, d)) >>= λ (opened : Bytes).
          (change (disk.write_file output []) >> λ (e : D).
          close_output disk xts cwd args output (image_of disk xts cwd args input_size on key e) e))
            d)
        h
      ∙ by_option o
    where
      by_option :
          (o : Option Bytes)
          → ((λ (d : D). (or_raise o os_error, d)) >>= λ (opened : Bytes).
                (change (disk.write_file output []) >> λ (e : D).
                close_output disk xts cwd args output
                  (image_of disk xts cwd args input_size on key e)
                  e))
              d
            ≡ elim o [
              | none ↦ (err os_error, d)
              | some contents ↦
                  close_output disk xts cwd args output
                    (image_of disk xts cwd args input_size on key (disk.write_file output [] d))
                    (disk.write_file output [] d)
            ]
      by_option none = refl
      by_option (some contents) = refl

  -- The `with` statement leaves the whole image in the output file and returns, or has met an
  -- InputError and leaves no output file, or raises another exception and leaves an empty file, or
  -- could not read the input and changed nothing, for a path with a file name on a disk that gives
  -- back what was written.
  pub write_output-IsLeft :
      (input_size : ℤ) (output : Str) (on : Bool) (key : Option Bytes) (d : D)
      → is_empty (split_dir output).1 ≡ false
      → let done = write_output disk xts cwd args input_size output on key d in
        ((disk.read_file d args.input ≡ none) × (done ≡ (err os_error, d)))
        ⊎ IsLeft disk output
            (image_of disk xts cwd args input_size on key (disk.write_file output [] d))
            done.0
            done.1
  unfolding write_output
  write_output-IsLeft input_size output on key d named =
      let empty = disk.write_file output [] d in
      let made = image_of disk xts cwd args input_size on key empty in
      elim (Option-cases (disk.read_file d args.input)) [
        | inl missing ↦ inl (missing, write_output_by input_size output on key d none missing)
        | inr (contents, found) ↦ inr (
            subst (λ (done : Result (Unit {0}) × D). IsLeft disk output made done.0 done.1)
              (sym (write_output_by input_size output on key d (some contents) found))
              (close_output-IsLeft output made empty (laws.read_file-write_file output [] d) named))
      ]

  -- What the `with` statement is at when it returns.
  pub write_output-eq-ok :
      (input_size : ℤ) (output : Str) (on : Bool) (key : Option Bytes) (d : D) {d' : D}
      → write_output disk xts cwd args input_size output on key d ≡ (ok tt, d')
      → (image : Bytes) × (image_of disk xts cwd args input_size on key
            (disk.write_file output [] d)
          ≡ ok image)
        × (disk.read_file d' output ≡ some image)
  unfolding write_output close_output
  write_output-eq-ok input_size output on key d {d'} h =
      let empty = disk.write_file output [] d in
      let made = image_of disk xts cwd args input_size on key empty in
      elim (Option-cases (disk.read_file d args.input)) [
        | inl missing ↦
            absurd (not_found (sym (write_output_by input_size output on key d none missing) ∙ h))
        | inr (contents, found) ↦
            closed made empty
              (sym (write_output_by input_size output on key d (some contents) found) ∙ h)
      ]
    where
      not_found : ◌≡◌ {A = Result (Unit {0}) × D} (err os_error, d) (ok tt, d') → ⊥
      not_found e = cc

      closed :
          (made : Result Bytes) (e : D)
          → close_output disk xts cwd args output made e ≡ (ok tt, d')
          → (image : Bytes) × (made ≡ ok image) × (disk.read_file d' output ≡ some image)
      closed (ok image) e h = (
        image,
        refl,
        subst (λ (k : D). disk.read_file k output ≡ some image)
            (ap (λ (p : Result (Unit {0}) × D). p.1) h) (laws.read_file-write_file output image e),
      )
      closed (err (system_exit minus_two)) e h = cc
      closed (err x) e h = cc
