-- ===== src/Entries/Primitive.antt =====
-- Entries of one slot: `write_primitive_data`, the namespace entry, and the retry on a new page.
use pedge.Prelude.{ℕ, ◌+◌, ◌<◌, ◌≡◌, refl, sym, arith, List, [], ◌∷◌, false, ℤ, pos, ltb, ltb→lt}
use pedge.Exceptions.{guard-eq-ok, Result, ok, err, Exception, page_full_error, guard, >>=-eq-ok}
use pedge.Python.Bytes.{Bytes, Str}
use pedge.Cipher.{XtsAes, IsXtsAes}
use pedge.State.{Page, Nvs, Encoding, u8, bytearray}
use pedge.Page.Bitmap.{IsValid}
use pedge.Page.Write.{stored_bytes, Wrote, write_entry_to_buf-eq-ok}
use pedge.Page.Entry.{write_primitive_data, primitive_entry}
use pedge.Page.Shape.{FitsKey, length-primitive_entry}
use pedge.Nvs.{create_new_page}
use mathlib.Core.Path.{subst}
use pedge.Nvs.Monad.{Action, on_cur_page, store_page, head_page, lift, ◌>>=◌}
use pedge.Nvs.Space.{Sound}
use pedge.Nvs.Reach.{
  Written, unwritten, then_wrote, name, here, next, Went-trans, Went-refl, OnOk, Safe, Safe->>=,
  create_new_page-Safe,
}
use pedge.Nvs.Keeps.{Keeps, Went-Keeps}
use pedge.Nvs.Rules.{Good, head-IsValid, on_cur_page-Good_last}
use pedge.Exceptions
use pedge.Entries.{retry, or_on_new_page, write_primitive, write_namespace}

-- A method of `Page` that only writes entries makes a step of the object.
pub on_cur_page-Safe :
    {A : Type 0} (f : Nvs → Page → Result (A × Page)) (P : A → Type 0)
    → ((n : Nvs) (p : Page) → IsValid p → OnOk (f n p) (λ done. P done.0 × Written p done.1))
    → Safe (on_cur_page f) P
on_cur_page-Safe {A} f P h total left n s = split n.pages refl
  where
    split : (ps : List Page) → n.pages ≡ ps → Good total n (on_cur_page f n) P
    split [] e =
        subst
          (λ (k : List Page).
            Good total n
              (((λ (m : Nvs). (head_page k, m)) >>= λ self. lift (f n self) >>= store_page) n) P)
          (sym e) (Went-refl n s, tt)
    split (p ∷ ps) e = on_cur_page-Good_last f P total left n p ps s e (h n p (head-IsValid s e))

retry-Safe :
    (m : Action (Unit {0}))
    → Safe m (λ _. Unit)
    → (r : Result (Unit {0})) → Safe (retry m r) (λ _. Unit)
unfolding retry
retry-Safe m h (err page_full_error) =
    Safe->>= (create_new_page false) (λ _. m) (λ _. Unit) (λ _. Unit) create_new_page-Safe
      (λ _ _. h)
retry-Safe m h (ok u) = λ total left n s. (Went-refl n s, tt)
retry-Safe m h (err e) = λ total left n s. (Went-refl n s, tt)

-- Trying again on a new page takes steps only.
pub or_on_new_page-Safe :
    (m : Action (Unit {0})) → Safe m (λ _. Unit) → Safe (or_on_new_page m) (λ _. Unit)
unfolding or_on_new_page
or_on_new_page-Safe m h total left n s =
    let (w, k) = h total left n s in
    let (w', k') = retry-Safe m h (m n).0 total w.left (m n).1 w.sound in (Went-trans w w', k')

-- `write_primitive_data`, if it returns, stored its entry, in the clear or encrypted, in the next
-- slot of the page and marked that slot, if the page is valid and the key is ASCII and of at most 16
-- characters.
pub write_primitive_data-Wrote :
    (xts : XtsAes) (nvs : Nvs) (p : Page) (key : Str) (v : ℤ) (encoding : Encoding) (ns_index : ℕ)
    {q : Page}
    → IsXtsAes xts
    → IsValid p
    → FitsKey key
    → write_primitive_data xts nvs p key v encoding ns_index ≡ ok q
    → (es : Bytes) × (out : Bytes) × (primitive_entry key v encoding ns_index ≡ ok es)
      × (stored_bytes xts nvs p.entry_num (bytearray es) 1 ≡ ok out)
      × Wrote p out 1 q
unfolding write_primitive_data
write_primitive_data-Wrote xts nvs p key v encoding ns_index laws valid fits e =
    let (u, room, e₁) = >>=-eq-ok (guard (ltb p.entry_num 126) page_full_error) _ e in
    let (es, built, e₂) = >>=-eq-ok (primitive_entry key v encoding ns_index) _ e₁ in
    let lt : p.entry_num < 126 = ltb→lt p.entry_num 126 (guard-eq-ok _ _ room) in
    let (out, stored, wrote) =
      write_entry_to_buf-eq-ok xts nvs p (bytearray es) 1 laws valid (omega arith)
        (omega (arith, length-primitive_entry key v encoding ns_index fits built)) e₂ in
    (es, out, built, stored, wrote)

module _ (xts : XtsAes) (laws : IsXtsAes xts) (key : Str) (fits : FitsKey key) where
  pub write_primitive-Safe :
      (v : ℤ) (encoding : Encoding) (ns_index : ℕ)
      → Safe (write_primitive xts key v encoding ns_index) (λ _. Unit)
  unfolding write_primitive
  write_primitive-Safe v encoding ns_index =
      on_cur_page-Safe _ (λ _. Unit)
        λ n p valid. one_entry p (write_primitive_data xts n p key v encoding ns_index) λ q e.
          let (es, out, built, stored, wrote) =
            write_primitive_data-Wrote xts n p key v encoding ns_index laws valid fits e in
          (out, wrote)
    where
      one_entry :
          (p : Page) (r : Result Page)
          → ((q : Page) → r ≡ ok q → (out : Bytes) × Wrote p out 1 q)
          → OnOk {A = Unit {0} × Page}
              (Exceptions.◌>>=◌ r (λ q. ok (tt {0}, q)))
              (λ done. Unit × Written p done.1)
      one_entry p (ok q) h = (tt, then_wrote unwritten (h q refl).1)
      one_entry p (err e) h = tt

  -- `NVS.write_namespace` takes steps only.
  pub write_namespace-Safe : Safe (write_namespace xts key) (λ _. Unit)
  unfolding write_namespace
  write_namespace-Safe total left n s =
      let counted = record n { namespace_idx = n.namespace_idx + 1 } in
      let sound : Sound total left counted = record {
        size = s.size;
        count = s.count;
        page_num = s.page_num;
        pages = s.pages;
        small = s.small;
      } in
      let (w, k) =
        or_on_new_page-Safe (write_primitive xts key (pos (n.namespace_idx + 1)) u8 0)
          (write_primitive-Safe (pos (n.namespace_idx + 1)) u8 0) total left counted sound in
      (
        Went-trans
            (record { left = left; sound = sound; path = next here (name (n.namespace_idx + 1)) })
            w,
        k,
      )

-- After `NVS.write_namespace`, whether it returned or raised, the object is sound, was reached by
-- steps and has every entry that it had before, if the key fits.
pub write_namespace-Keeps :
    (xts : XtsAes) (key : Str) (total left : ℕ) (n : Nvs)
    → IsXtsAes xts
    → FitsKey key
    → Sound total left n
    → Keeps total n (write_namespace xts key n).1
write_namespace-Keeps xts key total left n laws fits s =
    Went-Keeps (write_namespace-Safe xts laws key fits total left n s).0
