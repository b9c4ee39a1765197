-- ===== src/Page.antt =====
-- `class Page` of services/esp32-config-builder/nvs_partition_gen.py: a new page, its header and
-- its bitmap. The children hold the encryption, the entries and what is proved of them.
pub mod Bitmap
pub mod Crypt
pub mod Entry
pub mod Write
pub mod Shape
pub mod Init
use pedge.Prelude.{
  ℕ, zero, suc, ◌+◌, ◌-◌, ◌*◌, ◌/◌, ◌%◌, ◌^◌, List, [], ◌∷◌, Bool, bit_and, ltb, ◌==◌, ℤ, pos,
  length, set, get_or, replicate, if◌then◌else◌,
}
use pedge.Exceptions.{Result, ok, err, index_error, guard, ◌>>=◌, ◌>>◌}
use pedge.Python.Bytes.{Bytes, slice, set_slice, set_item, erased}
use pedge.Python.Struct.{unsigned, pack_into, unpack}
use pedge.Python.Crc.{crc32}
use pedge.State.{
  Page, active, full, version1, version2, max_size, bitmaparray_offset, bitmaparray_size,
}

-- `zlib.crc32(data, 0xFFFFFFFF) & 0xFFFFFFFF`, as every checksum of the format is taken.
unfoldable pub checksum : Bytes → ℕ
checksum bs = crc32 bs 0xFFFFFFFF % 2 ^ 32

-- The version byte of the header; another version leaves it erased.
unfoldable pub set_version : Bytes → ℕ → Result Bytes
set_version header version =
    if version == version2
    then set_item header 8 version2
    else if version == version1
    then set_item header 8 version1
    else ok header

-- The header that `Page.set_header` builds, before it is copied into the page.
unfoldable pub page_header : ℤ → ℕ → Result Bytes
unfolding set_version
page_header page_num version = do
  h ← pack_into (unsigned 4) (erased 32) 0 (pos active)
  h ← pack_into (unsigned 4) h 4 page_num
  h ← set_version h version
  pack_into (unsigned 4) h 28 (pos (checksum (slice 4 28 h)))

-- `Page.set_header`.
unfoldable pub set_header : Page → ℤ → ℕ → Result Page
set_header self page_num version = do
  h ← page_header page_num version
  ok (record self { page_buf = set_slice self.page_buf 0 (length h) h })

-- `Page.create_bitmap_array`.
unfoldable pub create_bitmap_array : Bytes
create_bitmap_array = replicate 32 255

-- `Page.__init__`.
unfoldable pub init : ℤ → ℕ → Bool → Result Page
unfolding create_bitmap_array
init page_num version is_rsrv_page =
    if is_rsrv_page
    then ok blank
    else set_header (record blank { bitmap_array = create_bitmap_array }) page_num version
  where
    blank : Page
    blank = record {
      entry_num = 0;
      bitmap_array = [];
      version = version;
      page_buf = erased max_size;
    }

-- `bits & ~(1 << k)` on an item of an `array('B')`.
unfoldable pub clear_bit : ℕ → ℕ → ℕ
clear_bit bits k = bit_and bits (255 - 2 ^ k)

-- `Page.write_bitmaparray`.
unfoldable pub write_bitmaparray : Page → Result Page
unfolding clear_bit
write_bitmaparray self = do
  let bitnum = self.entry_num * 2
  let byte_idx = bitnum / 8
  let bit_offset = bitnum % 8
  guard (ltb byte_idx (length self.bitmap_array)) index_error
  let bitmap =
      set self.bitmap_array byte_idx (clear_bit (get_or self.bitmap_array byte_idx 0) bit_offset)
  ok (record self {
    bitmap_array = bitmap;
    page_buf =
        set_slice self.page_buf bitmaparray_offset (bitmaparray_offset + bitmaparray_size) bitmap;
  })

-- The loop of `Page.write_entry_to_buf` over the entries that were written.
unfoldable pub mark_entries : ℕ → Page → Result Page
mark_entries zero self = ok self
mark_entries (suc count) self = do
  marked ← write_bitmaparray self
  mark_entries count (record marked { entry_num = marked.entry_num + 1 })

-- The step of `NVS.create_new_page` on the page before: state ACTIVE becomes FULL.
unfoldable pub mark_full : Page → Result Page
mark_full page = do
  curr_page_state ← unpack (slice 0 4 page.page_buf)
  (if curr_page_state == active
      then (do
        buf ← pack_into (unsigned 4) page.page_buf 0 (pos full)
        ok (record page { page_buf = buf }))
      else ok page)

-- That step, made only if there is a page already.
unfoldable pub mark_previous_full : List Page → Result (List Page)
unfolding mark_full
mark_previous_full [] = ok []
mark_previous_full (page ∷ pages) = do page' ← mark_full page; ok (page' ∷ pages)
