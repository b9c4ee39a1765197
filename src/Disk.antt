-- ===== src/Disk.antt =====
-- The file system as the tool uses it: a parameter, with the calls of `os`, `distutils` and `open`
-- as its operations, and functions that may raise and change it.
use pedge.Prelude.{◌≡◌, refl, Bool, if◌then◌else◌, Option, none, some}
use pedge.Exceptions.{Result, ok, err}
use pedge.Python.Bytes.{Bytes, Str}

-- `os.path.isdir`, `distutils.dir_util.mkpath`, a whole file read (`none` is an OSError) or written,
-- `os.remove` and `os.path.expanduser`. `D` is a state of the disk.
pub record Disk (D : Type 0) : Type 0 where
  pub isdir : D → Str → Bool
  pub mkpath : Str → D → D
  pub read_file : D → Str → Option Bytes
  pub write_file : Str → Bytes → D → D
  pub remove_file : Str → D → D
  pub expanduser : Str → Str

-- What was written can be read, what was removed cannot.
pub record IsDisk {D : Type 0} (disk : Disk D) : Type 0 where
  pub read_file-write_file :
      (path : Str) (contents : Bytes) (d : D)
      → disk.read_file (disk.write_file path contents d) path ≡ some contents
  pub read_file-remove_file :
      (path : Str) (d : D) → disk.read_file (disk.remove_file path d) path ≡ none

abbrev pub DiskAction : Type 0 → Type 0 → Type 0
DiskAction D A = D → Result A × D

module _ {D : Type 0} where
  infixl 5 ◌>>=◌ ◌>>◌
  abbrev pub ◌>>=◌ : {A B : Type 0} → DiskAction D A → (A → DiskAction D B) → DiskAction D B
  ◌>>=◌ action rest d =
      let (r, after) = action d in elim r [ err e ↦ (err e, after) | ok a ↦ rest a after ]

  abbrev pub ◌>>◌ : {B : Type 0} → DiskAction D (Unit {0}) → DiskAction D B → DiskAction D B
  action >> rest = action >>= λ _. rest

  abbrev pub pure : {A : Type 0} → A → DiskAction D A
  pure a d = (ok a, d)

  abbrev pub lift : {A : Type 0} → Result A → DiskAction D A
  lift r d = (r, d)

  abbrev pub change : (D → D) → DiskAction D (Unit {0})
  change f d = (ok tt, f d)

  -- `if not isdir(path): mkpath(path)`.
  abbrev pub ensure_dir : Disk D → Str → DiskAction D (Unit {0})
  ensure_dir disk path d = (ok tt, if disk.isdir d path then d else disk.mkpath path d)

  -- Two calls that returned: so did the first, and the second on its value.
  pub >>=-eq-ok :
      {A B : Type 0} (action : DiskAction D A) (rest : A → DiskAction D B) (d : D) {out : B}
      {d' : D}
      → (action >>= rest) d ≡ (ok out, d')
      → (a : A) × (after : D) × (action d ≡ (ok a, after)) × (rest a after ≡ (ok out, d'))
  >>=-eq-ok {A} {B} action rest d {out} {d'} = split (action d)
    where
      split :
          (r : Result A × D)
          → (let both : Result B × D = elim r.0 [ err e ↦ (err e, r.1) | ok a ↦ rest a r.1 ] in
              both ≡ (ok out, d'))
          → (a : A) × (after : D) × (r ≡ (ok a, after)) × (rest a after ≡ (ok out, d'))
      split (err e, after) h = cc
      split (ok a, after) h = (a, after, refl, h)

  -- The same after a step that leaves the disk alone.
  pub lift->>=-eq-ok :
      {A B : Type 0} (r : Result A) (rest : A → DiskAction D B) (d : D) {out : B} {d' : D}
      → (lift r >>= rest) d ≡ (ok out, d')
      → (a : A) × (r ≡ ok a) × (rest a d ≡ (ok out, d'))
  lift->>=-eq-ok (err e) rest d h = cc
  lift->>=-eq-ok (ok a) rest d h = (a, refl, h)
