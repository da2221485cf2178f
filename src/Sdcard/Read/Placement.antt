-- ===== src/Sdcard/Read/Placement.antt =====
-- Where the bytes of a block end up in memory.
use cheshire_can.Prelude.{
  ℕ, ◌+◌, ◌-◌, ◌*◌, ◌^◌, ◌≤◌, ◌<◌, Bool, true, false, ◌||◌, ◌≡◌, ◌⊎◌, refl, ap, ◌∙◌, arith, ◌==◌,
  if◌then◌else◌, length, get_or,
}
use cheshire_can.Word.{u64, sub64}
use cheshire_can.Machine.Store.{
  Bytes, Memory, store_bytes, store_bytes-inside, store_bytes-outside, copy_bytes,
  copy_bytes-inside, copy_bytes-outside,
}
use cheshire_can.Sdcard.Read.{is_first, is_last, copied}
use cheshire_can.Sdcard.Read.Block.{received}

-- A transfer of `n` blocks: how much of the first block is skipped, how much of the last is wanted.
pub record IsLayout (base n first_offs last_len : ℕ) : Type 0 where
  pub some_blocks : 0 < n
  pub offs_fits : first_offs < 512
  pub last_pos : 0 < last_len
  pub last_fits : last_len ≤ 512
  pub one_block : n ≡ 1 → first_offs < last_len
  pub in_range : base + 512 * n ≤ 2 ^ 64

-- The part of block `b` that is wanted.
abbrev pub lower : ℕ → ℕ → ℕ
lower first_offs b = if b == 0 then first_offs else 0

abbrev pub upper : ℕ → ℕ → ℕ → ℕ
upper n last_len b = if b == n - 1 then last_len else 512

module _ (dst swap first_offs last_len : ℕ) (content : Bytes) (mem : Memory)
    (full : length content ≡ 512) (offs_fits : first_offs < 512) (last_fits : last_len ≤ 512)
    (in_range : dst + 512 ≤ 2 ^ 64) where
  -- The memory once a block is received and its wanted part copied out.
  abbrev placed : Bool → Bool → Memory
  placed first last =
      copied first last dst swap first_offs last_len
        (store_bytes (if first || last then swap else dst) content mem)

  -- A copy out of the swap buffer, from `lo` on, brings the bytes of the block.
  from_swap :
      (lo count j : ℕ)
      → lo ≤ j
      → j < lo + count
      → j < 512
      → copy_bytes (dst + lo) (swap + lo) count (store_bytes swap content mem) (dst + j)
        ≡ get_or content j 0
  from_swap lo count j low high fits =
      let here : dst + j ≡ dst + lo + (j - lo) = omega arith in
      let there : swap + lo + (j - lo) ≡ swap + j = omega arith in
      rw here (
        copy_bytes-inside (dst + lo) (swap + lo) count (store_bytes swap content mem) (j - lo)
          (omega arith)
        ∙ ap (store_bytes swap content mem) there
        ∙ store_bytes-inside swap content mem j (omega arith))

  placed-inside :
      (first last : Bool) (j : ℕ)
      → (if first then first_offs else 0) ≤ j
      → j < (if last then last_len else 512)
      → placed first last (dst + j) ≡ get_or content j 0
  unfolding copied
  placed-inside true true j low high =
      rw (pointer, size)
        (from_swap first_offs (last_len - first_offs) j low (omega arith) (omega arith))
    where
      pointer : u64 (dst + first_offs) ≡ dst + first_offs
      pointer = omega arith

      size : sub64 last_len first_offs ≡ last_len - first_offs
      size = omega arith
  placed-inside true false j low high =
      rw (pointer, size) (from_swap first_offs (512 - first_offs) j low (omega arith) high)
    where
      pointer : u64 (dst + first_offs) ≡ dst + first_offs
      pointer = omega arith

      size : sub64 512 first_offs ≡ 512 - first_offs
      size = omega arith
  placed-inside false true j low high =
      copy_bytes-inside dst swap last_len (store_bytes swap content mem) j high
      ∙ store_bytes-inside swap content mem j (omega arith)
  placed-inside false false j low high = store_bytes-inside dst content mem j (omega arith)

  -- Outside the wanted part a copy leaves what was there before the block came in.
  beyond_swap :
      (to src count q : ℕ)
      → (q < to) ⊎ (to + count ≤ q)
      → (q < swap) ⊎ (swap + 512 ≤ q)
      → copy_bytes to src count (store_bytes swap content mem) q ≡ mem q
  beyond_swap to src count q out away =
      copy_bytes-outside to src count (store_bytes swap content mem) q out
      ∙ store_bytes-outside swap content mem q (omega arith)

  placed-outside :
      (first last : Bool) (q : ℕ)
      → (first ≡ true → last ≡ true → first_offs < last_len)
      → (q < dst + (if first then first_offs else 0)) ⊎ (dst + (if last then last_len else 512) ≤ q)
      → (q < swap) ⊎ (swap + 512 ≤ q)
      → placed first last q ≡ mem q
  unfolding copied
  placed-outside true true q order out away =
      let lt : first_offs < last_len = order refl refl in
      let pointer : u64 (dst + first_offs) ≡ dst + first_offs = omega arith in
      let size : sub64 last_len first_offs ≡ last_len - first_offs = omega arith in
      rw (pointer, size)
        (beyond_swap (dst + first_offs) (swap + first_offs) (last_len - first_offs) q (omega arith)
          away)
  placed-outside true false q order out away =
      let pointer : u64 (dst + first_offs) ≡ dst + first_offs = omega arith in
      let size : sub64 512 first_offs ≡ 512 - first_offs = omega arith in
      rw (pointer, size)
        (beyond_swap (dst + first_offs) (swap + first_offs) (512 - first_offs) q (omega arith) away)
  placed-outside false true q order out away = beyond_swap dst swap last_len q (omega arith) away
  placed-outside false false q order out away = store_bytes-outside dst content mem q (omega arith)

module _ {base n first_offs last_len : ℕ} (layout : IsLayout base n first_offs last_len)
    (swap b : ℕ) (hb : b < n) where
  open layout use {some_blocks, offs_fits, last_pos, last_fits, one_block, in_range}

  pointer_fits : u64 (base + 512 * b) ≡ base + 512 * b
  pointer_fits = omega arith

  count_fits : sub64 n 1 ≡ n - 1
  count_fits = omega arith

  lower_if : (if is_first b first_offs then first_offs else 0) ≡ lower first_offs b
  lower_if = ground arith

  upper_if : (if is_last b n last_len then last_len else 512) ≡ upper n last_len b
  upper_if = rw count_fits (ground arith)

  -- A byte of the wanted part of a block is the block's, one outside is untouched, but for the swap
  -- buffer.
  pub received-inside :
      (content : Bytes) (mem : Memory) (j : ℕ)
      → length content ≡ 512
      → lower first_offs b ≤ j
      → j < upper n last_len b
      → received base n swap first_offs last_len b content mem (base + 512 * b + j)
        ≡ get_or content j 0
  received-inside content mem j full low high = rw pointer_fits (
      placed-inside (base + 512 * b) swap first_offs last_len content mem full offs_fits last_fits
        (omega arith) (is_first b first_offs) (is_last b n last_len) j (rw lower_if low)
        (rw upper_if high))

  both_ends : is_first b first_offs ≡ true → is_last b n last_len ≡ true → first_offs < last_len
  both_ends f l = ground arith

  pub received-outside :
      (content : Bytes) (mem : Memory) (q : ℕ)
      → length content ≡ 512
      → (q < base + 512 * b + lower first_offs b) ⊎ (base + 512 * b + upper n last_len b ≤ q)
      → (q < swap) ⊎ (swap + 512 ≤ q)
      → received base n swap first_offs last_len b content mem q ≡ mem q
  received-outside content mem q full out away = rw pointer_fits (
      placed-outside (base + 512 * b) swap first_offs last_len content mem full offs_fits last_fits
        (omega arith) (is_first b first_offs) (is_last b n last_len) q both_ends
        (rw (lower_if, upper_if) out) away)
