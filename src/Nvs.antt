-- ===== src/Nvs.antt =====
-- `class NVS` of services/esp32-config-builder/nvs_partition_gen.py: the methods that make pages,
-- and the image that a closed object writes out.
pub mod Monad
pub mod Space
pub mod Reach
pub mod Rules
pub mod Close
pub mod Keeps
pub mod Headers
use pedge.Prelude.{
  ℕ, zero, suc, ◌+◌, List, [], ◌∷◌, ◌++◌, Bool, true, false, not, Option, none, some, ℤ, pos,
  negsuc, is_zero, ◌+ℤ◌, ◌-ℤ◌, ◌+◌, ◌/◌, pos_part, ◌==◌, if◌then◌else◌, length, reverse,
}
use pedge.Exceptions.{Exception, insufficient_size_error, type_error, out_of_fuel, Result, ok, err}
use pedge.Python.Bytes.{Bytes, slice}
use pedge.Python.Struct.{unsigned, pack_into, unpack}
use pedge.State.{Page, Nvs, active, full, max_size}
use pedge.Page.{init, mark_previous_full}
use Monad.{Action, pure, raise_if, lift, get, modify, ◌>>=◌, ◌>>◌}

-- `self.size == 0`.
unfoldable pub no_space : Option ℤ → Bool
no_space none = false
no_space (some size) = is_zero size

-- `self.size - PAGE_PARAMS['max_size']`.
unfoldable pub take_page : Option ℤ → Result (Option ℤ)
take_page none = err type_error
take_page (some size) = ok (some (size -ℤ pos max_size))

-- `NVS.create_new_page`.
unfoldable pub create_new_page : Bool → Action (Unit {0})
create_new_page is_rsrv_page = do
  nvs ← get
  pages ← lift (mark_previous_full nvs.pages)
  modify (λ n. record n { pages = pages })
  raise_if (no_space nvs.size) insufficient_size_error
  size ← lift (if is_rsrv_page then ok nvs.size else take_page nvs.size)
  let page_num = nvs.page_num +ℤ pos 1
  modify (λ n. record n { size = size; page_num = page_num })
  new_page ← lift (init page_num nvs.version is_rsrv_page)
  modify (λ n. record n { pages = new_page ∷ n.pages })

-- The fields that `NVS.__init__` sets before it makes the first page.
unfoldable pub new_nvs : ℤ → ℕ → Bool → Option Bytes → Nvs
new_nvs input_size version is_encrypt key = record {
  size = some input_size;
  encrypt = is_encrypt;
  encr_key = if is_encrypt then key else none;
  namespace_idx = 0;
  page_num = negsuc 0;
  pages = [];
  version = version;
}

abbrev pub opened : Result (Unit {0}) × Nvs → Result Nvs
opened (ok _, nvs) = ok nvs
opened (err e, nvs) = err e

-- `nvs_open`, `NVS.__init__`: the object, if the first page could be made.
unfoldable pub nvs_open : ℤ → ℕ → Bool → Option Bytes → Result Nvs
unfolding new_nvs
nvs_open input_size version is_encrypt key =
    opened (create_new_page false (new_nvs input_size version is_encrypt key))

-- The pages' buffers, one after the other.
unfoldable pub join_pages : List Page → Bytes
join_pages [] = []
join_pages (page ∷ pages) = page.page_buf ++ join_pages pages

-- `NVS.get_binary_data`.
unfoldable pub get_binary_data : Nvs → Bytes
unfolding join_pages
get_binary_data nvs = join_pages (reverse nvs.pages)

-- A round of the loop of `NVS.__exit__` after its call: another round, or, where there was no space,
-- the reserved page. Any other exception leaves the loop.
unfoldable pub fill_next : Action (Unit {0}) → Result (Unit {0}) → Action (Unit {0})
fill_next again (err insufficient_size_error) nvs =
    create_new_page true (record nvs { size = none })
fill_next again (ok done) nvs = again nvs
fill_next again (err e) nvs = (err e, nvs)

-- The loop, by the rounds that are left.
unfoldable pub fill_pages : ℕ → Action (Unit {0})
unfolding create_new_page fill_next
fill_pages zero nvs = (err out_of_fuel, nvs)
fill_pages (suc fuel) nvs =
    let (done, nvs') = create_new_page false nvs in fill_next (fill_pages fuel) done nvs'

-- The rounds that the loop may take: a page for every 4096 bytes left, and the one that raises. A
-- size that is no multiple of 4096 would never end the source's loop, nor does it end this one well.
unfoldable pub close_rounds : Option ℤ → ℕ
close_rounds none = 1
close_rounds (some size) = pos_part size / max_size + 1

-- `nvs_close`, `NVS.__exit__` without an exception: the bytes that go to the output file.
unfoldable pub nvs_close : Action Bytes
nvs_close = do
  nvs ← get
  fill_pages (close_rounds nvs.size)
  closed ← get
  pure (get_binary_data closed)
