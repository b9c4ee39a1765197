-- ===== src/Page/Crypt/Sectors.antt =====
-- `encrypt_data` as AES-XTS over the entries of a page, each a sector with its own address.
use pedge.Prelude.{
  All, ℕ, zero, suc, ◌+◌, ◌-◌, ◌*◌, ◌/◌, ◌%◌, ◌^◌, ◌≤◌, ◌<◌, ◌≡◌, ◌∙◌, refl, sym, ap, arith, [],
  ◌∷◌, ◌++◌, ℤ, pos, ◌+ℤ◌, ◌*ℤ◌, length, take, drop, length-take, length-drop, take-append-drop,
  take-append_eq, drop-append_eq, drop-drop, append_assoc, append-nil,
}
use pedge.Exceptions.{Result, ok, err, or_raise, value_error, ◌>>=◌}
use pedge.Python.Bytes.{Bytes, Str, slice}
use pedge.Python.Hex.{hexlify, hex_digit}
use pedge.Python.Hex.Laws.{unhex-hexlify, length-hexlify}
use pedge.Python.Struct.{le_bytes}
use pedge.Cipher.{XtsAes}
use pedge.State.{Nvs, Buffer}
use pedge.Page.Crypt.{
  data_padding, tweak_val, encrypt_entry, encrypt_loop, encr_key_input, encrypt_data, padded,
  rel_addr,
}
use pedge.Page.Crypt.Tweak.{tweak_val-le_bytes}

-- AES-XTS of the entries that stand from an address on: the tweak of each is its address as 16 bytes,
-- the lowest first.
abbrev pub encrypt_sectors : XtsAes → Bytes → ℕ → ℕ → Bytes → Result Bytes
encrypt_sectors xts key address zero plain = ok []
encrypt_sectors xts key address (suc count) plain = do
  let rest = encrypt_sectors xts key (address + 32) count (drop 32 plain)
  first ← or_raise (xts.encryptor key (le_bytes 16 address) (take 32 plain)) value_error
  others ← rest
  ok (first ++ others)

pub pos-add : (a b : ℕ) → pos a +ℤ pos b ≡ pos (a + b)
pos-add a b = ground arith

pos-mul : (a b : ℕ) → pos a *ℤ pos b ≡ pos (a * b)
pos-mul a b = ground arith

hexlify-append : (a b : Bytes) → hexlify (a ++ b) ≡ hexlify a ++ hexlify b
unfolding hexlify
hexlify-append [] b = refl
hexlify-append (c ∷ a) b =
    ap (λ (s : Str). hex_digit (c / 16) ∷ hex_digit (c % 16) ∷ s) (hexlify-append a b)

All-take : (n : ℕ) (xs : Bytes) → All (λ b. b < 256) xs → All (λ b. b < 256) (take n xs)
All-take zero xs h = tt
All-take (suc n) [] h = tt
All-take (suc n) (x ∷ xs) h = (h.0, All-take n xs h.1)

All-drop : (n : ℕ) (xs : Bytes) → All (λ b. b < 256) xs → All (λ b. b < 256) (drop n xs)
All-drop zero xs h = h
All-drop (suc n) [] h = tt
All-drop (suc n) (x ∷ xs) h = All-drop n xs h.1

-- The 64 digits of an entry, and the others, in the text of the data.
hexlify-split :
    (n : ℕ) (plain : Bytes) → hexlify (take n plain) ++ hexlify (drop n plain) ≡ hexlify plain
hexlify-split n plain =
    sym (hexlify-append (take n plain) (drop n plain)) ∙ ap hexlify (take-append-drop n plain)

accumulated :
    (loop : Bytes → Result Bytes) (rest : Result Bytes) (acc : Bytes)
    → ((c : Bytes) → loop c ≡ (rest >>= λ out. ok ((acc ++ c) ++ out)))
    → (r : Result Bytes)
    → (r >>= loop)
      ≡ ((r >>= λ first. rest >>= λ others. ok (first ++ others)) >>= λ out. ok (acc ++ out))
accumulated loop rest acc h (err e) = refl
accumulated loop (err e) acc h (ok c) = h c
accumulated loop (ok others) acc h (ok c) = h c ∙ ap ok (append_assoc acc c others)

pub rel_addr-pos : (page_num : ℕ) → rel_addr (pos page_num) ≡ pos (4096 * page_num + 64)
unfolding rel_addr
rel_addr-pos page_num =
    ap (λ (a : ℤ). a +ℤ pos 64) (pos-mul page_num 4096)
    ∙ pos-add (page_num * 4096) 64
    ∙ ap pos {x = page_num * 4096 + 64} {y = 4096 * page_num + 64} (omega arith)

module _ (xts : XtsAes) (key : Bytes) where
  encrypt_entry-le_bytes :
      (plain : Bytes) (address : ℕ)
      → All (λ b. b < 256) plain
      → 16 ≤ address
      → address < 256 ^ 16
      → encrypt_entry xts (hexlify plain) (tweak_val (pos address)) key
        ≡ or_raise (xts.encryptor key (le_bytes 16 address) plain) value_error
  unfolding encrypt_entry
  encrypt_entry-le_bytes plain address h low high =
      rw (unhex-hexlify plain h, tweak_val-le_bytes address low high) refl

  -- A round's text is that of its entry, with no padding.
  data_val-hexlify :
      (s : Str) (start : ℕ) (plain : Bytes)
      → drop start s ≡ hexlify plain
      → 32 ≤ length plain
      → (let data_bytes = slice start (start + 64) s in
          data_bytes ++ data_padding (64 - length data_bytes))
        ≡ hexlify (take 32 plain)
  data_val-hexlify s start plain e h =
      let first = hexlify (take 32 plain) in
      let len : length first ≡ 64 =
        omega (arith, length-hexlify (take 32 plain), length-take 32 plain, h) in
      let sixty : start + 64 - start ≡ 64 = omega arith in
      let cut : slice start (start + 64) s ≡ first =
        rw (sixty, e)
          (ap (take 64) (sym (hexlify-split 32 plain))
            ∙ take-append_eq 64 first (hexlify (drop 32 plain)) len) in
      rw (cut, len) (append-nil first)

  encrypt_loop-sectors :
      (base : ℕ) (s : Str) (count entry_no start : ℕ) (acc plain : Bytes)
      → drop start s ≡ hexlify plain
      → length plain ≡ 32 * count
      → All (λ b. b < 256) plain
      → 16 ≤ base
      → base + 32 * (entry_no + count) ≤ 256 ^ 16
      → encrypt_loop xts key (pos base) s count entry_no start acc
        ≡ (encrypt_sectors xts key (base + 32 * entry_no) count plain >>= λ out. ok (acc ++ out))
  unfolding encrypt_loop
  encrypt_loop-sectors base s zero entry_no start acc plain e len bytes low high =
      ap ok (sym (append-nil acc))
  encrypt_loop-sectors base s (suc count) entry_no start acc plain e len bytes low high =
      let address = base + 32 * entry_no in
      let at : pos base +ℤ pos (entry_no * 32) ≡ pos address =
        pos-add base (entry_no * 32)
        ∙ ap pos {x = base + entry_no * 32} {y = address} (omega arith) in
      let next : base + 32 * (entry_no + 1) ≡ address + 32 = omega arith in
      let left : drop (start + 64) s ≡ hexlify (drop 32 plain) =
        sym (drop-drop start 64 s)
        ∙ ap (drop 64) (e ∙ sym (hexlify-split 32 plain))
        ∙ drop-append_eq 64 (hexlify (take 32 plain)) (hexlify (drop 32 plain))
            (omega (arith, length-hexlify (take 32 plain), length-take 32 plain, len)) in
      let ih = λ (c : Bytes).
        encrypt_loop-sectors base s count (entry_no + 1) (start + 64) (acc ++ c) (drop 32 plain)
          left (omega (arith, length-drop 32 plain, len)) (All-drop 32 plain bytes) low
          (omega (arith, high)) in
      rw
        (
          data_val-hexlify s start plain e (omega (arith, len)),
          at,
          encrypt_entry-le_bytes (take 32 plain) address (All-take 32 plain bytes)
              (omega (arith, low)) (omega (arith, high)),
        )
        (accumulated
          (λ c. encrypt_loop xts key (pos base) s count (entry_no + 1) (start + 64) (acc ++ c))
          (encrypt_sectors xts key (address + 32) count (drop 32 plain)) acc
          (λ c.
            ih c
            ∙ ap
                (λ (a : ℕ).
                  encrypt_sectors xts key a count (drop 32 plain) >>= λ out. ok ((acc ++ c) ++ out))
                next)
          (or_raise (xts.encryptor key (le_bytes 16 address) (take 32 plain)) value_error))

-- `encrypt_data` reads its key from the object, 64 bytes as they are and any other as hex, and raises
-- where that raises; under this key it is AES-XTS of the entries, each a sector at its own address,
-- from that of the page's next entry on, for a page number that is not negative and a whole number of
-- entries of bytes, below the address 2 ^ 128.
pub encrypt_data-sectors :
    (xts : XtsAes) (nvs : Nvs) (entry_num page_num count : ℕ) (buffer : Buffer)
    → nvs.page_num ≡ pos page_num
    → length (padded buffer) ≡ 32 * count
    → All (λ b. b < 256) (padded buffer)
    → 4096 * page_num + 64 + 32 * (entry_num + count) ≤ 256 ^ 16
    → encrypt_data xts nvs entry_num buffer count ≡ (
        encr_key_input nvs.encr_key >>= λ key.
        encrypt_sectors xts key (4096 * page_num + 64 + 32 * entry_num) count (padded buffer))
unfolding encrypt_data
encrypt_data-sectors xts nvs entry_num page_num count buffer at len bytes high =
    let base : rel_addr nvs.page_num ≡ pos (4096 * page_num + 64) =
      ap rel_addr at ∙ rel_addr-pos page_num in
    rw base (with_key (encr_key_input nvs.encr_key))
  where
    nothing : (r : Result Bytes) → (r >>= λ out. ok ([] ++ out)) ≡ r
    nothing (ok out) = refl
    nothing (err e) = refl

    with_key :
        (key : Result Bytes)
        → (key >>= λ k.
            encrypt_loop xts k
              (pos (4096 * page_num + 64))
              (hexlify (padded buffer))
              count
              entry_num
              0
              [])
          ≡ (key >>= λ k.
              encrypt_sectors xts k (4096 * page_num + 64 + 32 * entry_num) count (padded buffer))
    with_key (err e) = refl
    with_key (ok k) =
        encrypt_loop-sectors xts k (4096 * page_num + 64) (hexlify (padded buffer)) count entry_num
          0 [] (padded buffer) refl len bytes (omega arith) high
        ∙ nothing
            (encrypt_sectors xts k (4096 * page_num + 64 + 32 * entry_num) count (padded buffer))
