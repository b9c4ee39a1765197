-- ===== src/Page/Init.antt =====
-- New pages and their headers, and the change of a page's state.
use pedge.Prelude.{
  ℕ, ◌-◌, ◌*◌, ◌^◌, ◌≤◌, ◌<◌, ◌≡◌, ◌∙◌, inl, inr, refl, ap, arith, length, pos, get_or, set,
  length-set, false, ◌==◌, if◌then◌else◌, Bool-cases, get_or-replicate, length-replicate,
}
use pedge.Exceptions.{ok}
use pedge.Python.Bytes.{
  Bytes, slice, set_slice, set_item, erased, length-erased, length-set_slice, slice-set_slice,
}
use pedge.Python.Slices.{slice-set_slice_after, get_or-set_slice_after, length-slice}
use pedge.Python.Struct.{le_bytes, length-le_bytes, pack_into-ok, unpack, from_le}
use pedge.State.{Page, active, full, version1, version2}
use pedge.Page.{
  checksum, page_header, set_version, set_header, create_bitmap_array, init, mark_full,
}
use pedge.Page.Bitmap.{IsValid, Marks, marks_byte}

pub checksum-lt : (bs : Bytes) → checksum bs < 256 ^ 4
unfolding checksum
checksum-lt bs = omega arith

abbrev pub versioned : Bytes → ℕ → Bytes
versioned h version =
    if version == version2
    then set h 8 version2
    else if version == version1
    then set h 8 version1
    else h

set_version-ok :
    (h : Bytes) (version : ℕ) → length h ≡ 32 → set_version h version ≡ ok (versioned h version)
unfolding set_version set_item
set_version-ok h version len = ground arith

length-versioned : (h : Bytes) (version : ℕ) → length (versioned h version) ≡ length h
length-versioned h version = ground (arith, length-set h 8 version2, length-set h 8 version1)

-- The header before its checksum: state, number, version, the rest erased.
unfoldable pub unsummed_header : ℕ → ℕ → Bytes
unsummed_header n version =
    versioned (set_slice (set_slice (erased 32) 0 4 (le_bytes 4 active)) 4 8 (le_bytes 4 n)) version

pub length-unsummed_header : (n version : ℕ) → length (unsummed_header n version) ≡ 32
unfolding unsummed_header
length-unsummed_header n version =
    let h₁ = set_slice (erased 32) 0 4 (le_bytes 4 active) in
    let h₂ = set_slice h₁ 4 8 (le_bytes 4 n) in
    omega (
      arith,
      length-versioned h₂ version,
      length-set_slice h₁ 4 8 (le_bytes 4 n),
      length-set_slice (erased 32) 0 4 (le_bytes 4 active),
      length-erased 32,
      length-le_bytes 4 n,
      length-le_bytes 4 active,
    )

-- The whole header, with the checksum of all but the state and itself.
unfoldable pub header_bytes : ℕ → ℕ → Bytes
unfolding unsummed_header
header_bytes n version =
    let h = unsummed_header n version in set_slice h 28 32 (le_bytes 4 (checksum (slice 4 28 h)))

pub page_header-ok :
    (n version : ℕ) → n < 2 ^ 32 → page_header (pos n) version ≡ ok (header_bytes n version)
unfolding page_header header_bytes
page_header-ok n version h =
    let h₁ = set_slice (erased 32) 0 4 (le_bytes 4 active) in
    let h₂ = set_slice h₁ 4 8 (le_bytes 4 n) in
    let len₁ : length h₁ ≡ 32 =
      length-set_slice (erased 32) 0 4 (le_bytes 4 active) (omega arith)
        (omega (arith, length-erased 32)) (omega (arith, length-le_bytes 4 active))
      ∙ length-erased 32 in
    let len₂ : length h₂ ≡ 32 =
      length-set_slice h₁ 4 8 (le_bytes 4 n) (omega arith) (omega arith)
        (omega (arith, length-le_bytes 4 n))
      ∙ len₁ in
    rw (
      pack_into-ok 4 (erased 32) 0 active (omega arith) (omega (arith, length-erased 32)),
      pack_into-ok 4 h₁ 4 n (omega arith) (omega arith),
      set_version-ok h₂ version len₂,
      pack_into-ok 4 (versioned h₂ version) 28 (checksum (slice 4 28 (versioned h₂ version)))
          (checksum-lt (slice 4 28 (versioned h₂ version)))
          (omega (arith, length-versioned h₂ version)),
    )

pub length-header_bytes : (n version : ℕ) → length (header_bytes n version) ≡ 32
unfolding header_bytes
length-header_bytes n version =
    let h = unsummed_header n version in
    length-set_slice h 28 32 (le_bytes 4 (checksum (slice 4 28 h))) (omega arith)
      (omega (arith, length-unsummed_header n version))
      (omega (arith, length-le_bytes 4 (checksum (slice 4 28 h))))
    ∙ length-unsummed_header n version

-- A fresh page as `Page.__init__` leaves it.
unfoldable pub fresh_page : ℕ → ℕ → Page
fresh_page n version = record {
  entry_num = 0;
  bitmap_array = create_bitmap_array;
  version = version;
  page_buf = set_slice (erased 4096) 0 32 (header_bytes n version);
}

pub init-ok : (n version : ℕ) → n < 2 ^ 32 → init (pos n) version false ≡ ok (fresh_page n version)
unfolding init set_header fresh_page
init-ok n version h = rw (page_header-ok n version h, length-header_bytes n version)

create_bitmap_array-Marks : Marks 0 create_bitmap_array
unfolding create_bitmap_array
create_bitmap_array-Marks j h =
    get_or-replicate 32 255 j 0 h ∙ ap marks_byte {x = 0} {y = 0 - 4 * j} (omega arith)

pub fresh_page-IsValid : (n version : ℕ) → IsValid (fresh_page n version)
unfolding fresh_page
fresh_page-IsValid n version =
    let len = length-erased 4096 in
    let head = length-header_bytes n version in
    record {
      length_buf =
          length-set_slice (erased 4096) 0 32 (header_bytes n version) (omega arith) (omega arith)
            (omega arith)
          ∙ len;
      length_bitmap = unfold create_bitmap_array in length-replicate {A = ℕ} 32 255;
      room = omega arith;
      marks = create_bitmap_array-Marks;
      image =
          slice-set_slice_after (erased 4096) 32 64 0 32 (header_bytes n version) (omega arith)
            (omega arith) (omega arith) (omega arith)
          ∙ unfold erased create_bitmap_array in refl;
    }

-- The state of a page, in the first four bytes of its image.
abbrev pub state : Page → ℕ
state p = from_le (slice 0 4 p.page_buf)

-- What becomes of a page when the next one is made.
pub record MarkedFull (p q : Page) : Type 0 where
  pub valid : IsValid q
  pub entry_num : q.entry_num ≡ p.entry_num
  pub version : q.version ≡ p.version
  pub closed : state q ≡ (if state p == active then full else state p)
  pub others : (j : ℕ) → 4 ≤ j → get_or q.page_buf j 0 ≡ get_or p.page_buf j 0

abbrev full_page : Page → Page
full_page p = record p { page_buf = set_slice p.page_buf 0 4 (le_bytes 4 full) }

full_page-IsValid : (p : Page) → IsValid p → IsValid (full_page p)
full_page-IsValid p v = record {
  length_buf =
      length-set_slice p.page_buf 0 4 (le_bytes 4 full) (omega arith) (omega arith) refl
      ∙ v.length_buf;
  length_bitmap = v.length_bitmap;
  room = v.room;
  marks = v.marks;
  image =
      slice-set_slice_after p.page_buf 32 64 0 4 (le_bytes 4 full) (omega arith) (omega arith) refl
        (omega arith)
      ∙ v.image;
}

-- On a valid page the step raises nothing, turns state ACTIVE into FULL, keeps any other state and
-- every byte after the state, and the page stays valid.
pub mark_full-MarkedFull :
    (p : Page) → IsValid p → (q : Page) × (mark_full p ≡ ok q) × MarkedFull p q
unfolding mark_full unpack
mark_full-MarkedFull p v = elim (Bool-cases (state p == active)) [
  | inl e ↦ (
    full_page p,
    rw (
      length-slice 0 4 p.page_buf (omega arith),
      e,
      pack_into-ok 4 p.page_buf 0 full (omega arith) (omega arith),
    ),
    record {
      valid = full_page-IsValid p v;
      entry_num = refl;
      version = refl;
      closed =
          rw e (ap from_le (slice-set_slice p.page_buf 0 4 (le_bytes 4 full) refl (omega arith)));
      others =
          λ j h. get_or-set_slice_after p.page_buf 0 4 (le_bytes 4 full) j refl (omega arith) h;
    },
  )
  | inr e ↦ (
    p,
    rw (length-slice 0 4 p.page_buf (omega arith), e),
    record { valid = v; entry_num = refl; version = refl; closed = rw e; others = λ j h. refl },
  )
]
