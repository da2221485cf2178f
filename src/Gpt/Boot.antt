-- ===== src/Gpt/Boot.antt =====
-- What is booted: `gpt_boot_part_else_raw` over a disk that reads without error.
use cheshire_can.Prelude.{
  ℕ, ◌+◌, ◌*◌, ◌^◌, ◌≤◌, ◌<◌, Bool, true, false, ◌&&◌, not, Option, ◌≡◌, ◌⊎◌, refl, ◌∙◌, inl, inr,
  arith, bit_or, Bool-cases,
}
use cheshire_can.Word.{u64, min_c, sub64, le_bytes}
use cheshire_can.Machine.{State, Cmd}
use cheshire_can.Machine.Store.{
  Memory, load_bytes, store_bytes, load_bytes-store_bytes, load_bytes-store_bytes_apart,
}
use cheshire_can.Machine.Yields.{Yields, yields, bind}
use cheshire_can.Gpt.{
  Extent, Guid, Found, Frame, is_too_large, record_first, boot_extent, boot_part_else_raw,
}
use cheshire_can.Gpt.Choice.{
  header, is_signed, extent_at, IsChoice, first_candidate, no_candidate, no_entries,
}
use cheshire_can.Gpt.Find.{Reader, check_signature-IsReady, find_partition-search}
use cheshire_can.Gpt.Search.{search, search-IsChoice}

-- The first blocks of the disk, as many as fit.
abbrev pub raw : ℕ → Extent
raw max_lbas = record { lba_begin = 0; lba_end = sub64 max_lbas 1 }

-- The extent to boot: the table's choice, or the first blocks of a disk without a table.
pub data IsBoot (disk : ℕ → ℕ) (max_lbas : ℕ) (tguid pguid : Option Guid) : Extent → Type 0 where
  partition :
      (found : Found)
      → is_signed disk ≡ true
      → IsChoice disk max_lbas tguid pguid (raw max_lbas) found
      → IsBoot disk max_lbas tguid pguid found.extent
  unpartitioned : is_signed disk ≡ false → IsBoot disk max_lbas tguid pguid (raw max_lbas)

-- What is read for an extent.
abbrev pub addr_of : Extent → ℕ
addr_of extent = u64 (0x200 * extent.lba_begin)

abbrev pub len_of : Extent → ℕ
len_of extent = u64 (0x200 * u64 (sub64 extent.lba_end extent.lba_begin + 1))

-- A first entry that does not end before it begins, and that is not at the end of all addresses.
pub record IsSound (max_lbas : ℕ) (first : Extent) : Type 0 where
  pub forward : first.lba_begin ≤ first.lba_end + 1
  pub no_wrap : first.lba_begin + max_lbas ≤ 2 ^ 64

raw_fits : (max_lbas : ℕ) → 0 < max_lbas → len_of (raw max_lbas) ≤ 0x200 * max_lbas
raw_fits max_lbas pos = omega arith

small_fits :
    (max_lbas : ℕ) (e : Extent) → is_too_large max_lbas e ≡ false → len_of e ≤ 0x200 * max_lbas
small_fits max_lbas e small = ground arith

clipped_fits :
    (max_lbas b l : ℕ)
    → 0 < max_lbas
    → b ≤ l + 1
    → b + max_lbas ≤ 2 ^ 64
    → u64 (sub64 (min_c l (sub64 (u64 (b + max_lbas)) 1)) b + 1) ≤ max_lbas
clipped_fits max_lbas b l pos forward no_wrap = ground arith

first_fits :
    (max_lbas : ℕ) (first before : Extent)
    → 0 < max_lbas
    → IsSound max_lbas first
    → len_of (record_first max_lbas 0 first before) ≤ 0x200 * max_lbas
first_fits max_lbas first before pos sound =
    let fits =
      clipped_fits max_lbas first.lba_begin first.lba_end pos sound.forward sound.no_wrap in
    omega arith

left_false : (a b : Bool) → (not a && b) ≡ true → a ≡ false
left_false true b h = cc
left_false false b h = refl

-- What is read for any extent that may be booted fits the buffer.
len_of-IsBoot :
    {disk : ℕ → ℕ} {max_lbas : ℕ} {tguid pguid : Option Guid} {extent : Extent}
    → 0 < max_lbas
    → IsSound max_lbas (extent_at disk 0)
    → IsBoot disk max_lbas tguid pguid extent
    → len_of extent ≤ 0x200 * max_lbas
len_of-IsBoot {max_lbas = max_lbas} pos sound (unpartitioned e) = raw_fits max_lbas pos
len_of-IsBoot {disk} {max_lbas} {tguid} {pguid} pos sound (partition found e choice) = fits choice
  where
    fits :
        {found : Found}
        → IsChoice disk max_lbas tguid pguid (raw max_lbas) found
        → len_of found.extent ≤ 0x200 * max_lbas
    fits (first_candidate p lt hit none_q) =
        small_fits max_lbas (extent_at disk p) (left_false _ _ hit)
    fits (no_candidate none_q some_entry) =
        first_fits max_lbas (extent_at disk 0) (raw max_lbas) pos sound
    fits (no_entries e) = raw_fits max_lbas pos

-- The state in which the next stage is entered: the code is in the buffer and fits it, and the scratch
-- registers tell of the read function, its argument and the global pointer.
pub record IsLaunch (disk : ℕ → ℕ) (max_lbas : ℕ) (tguid pguid : Option Guid)
    (code_buf base_regs self priv gp : ℕ) (after : Memory) : Type 0 where
  pub extent : Extent
  pub chosen : IsBoot disk max_lbas tguid pguid extent
  pub fits : len_of extent ≤ 0x200 * max_lbas
  pub loaded :
      load_bytes code_buf (len_of extent) after ≡ load_bytes (addr_of extent) (len_of extent) disk
  pub scratch0 : load_bytes (base_regs + 0x0) 4 after ≡ le_bytes 4 (bit_or self 1)
  pub scratch1 : load_bytes (base_regs + 0x4) 4 after ≡ le_bytes 4 priv
  pub scratch3 : load_bytes (base_regs + 0xc) 4 after ≡ le_bytes 4 gp

-- The memory once the pointers are in the scratch registers.
abbrev with_scratch : ℕ → ℕ → ℕ → ℕ → Memory → Memory
with_scratch base_regs self priv gp mem = store_bytes (base_regs + 0xc) (le_bytes 4 gp) (
    store_bytes (base_regs + 0x4) (le_bytes 4 priv)
      (store_bytes (base_regs + 0x0) (le_bytes 4 (bit_or self 1)) mem))

module _ (base_regs self priv gp : ℕ) (mem : Memory) where
  with_scratch-apart :
      (p n : ℕ)
      → (p + n ≤ base_regs) ⊎ (base_regs + 0x10 ≤ p)
      → load_bytes p n (with_scratch base_regs self priv gp mem) ≡ load_bytes p n mem
  with_scratch-apart p n apart =
      load_bytes-store_bytes_apart p n (base_regs + 0xc) (le_bytes 4 gp) _ (ground arith)
      ∙ load_bytes-store_bytes_apart p n (base_regs + 0x4) (le_bytes 4 priv) _ (ground arith)
      ∙ load_bytes-store_bytes_apart p n (base_regs + 0x0) (le_bytes 4 (bit_or self 1)) mem
          (ground arith)

  scratch0_lem :
      load_bytes (base_regs + 0x0) 4 (with_scratch base_regs self priv gp mem)
      ≡ le_bytes 4 (bit_or self 1)
  scratch0_lem =
      load_bytes-store_bytes_apart (base_regs + 0x0) 4 (base_regs + 0xc) (le_bytes 4 gp) _
        (ground arith)
      ∙ load_bytes-store_bytes_apart (base_regs + 0x0) 4 (base_regs + 0x4) (le_bytes 4 priv) _
          (ground arith)
      ∙ load_bytes-store_bytes (base_regs + 0x0) (le_bytes 4 (bit_or self 1)) mem

  scratch1_lem :
      load_bytes (base_regs + 0x4) 4 (with_scratch base_regs self priv gp mem) ≡ le_bytes 4 priv
  scratch1_lem =
      load_bytes-store_bytes_apart (base_regs + 0x4) 4 (base_regs + 0xc) (le_bytes 4 gp) _
        (ground arith)
      ∙ load_bytes-store_bytes (base_regs + 0x4) (le_bytes 4 priv) _

module _ {W : Type 0} {read : ℕ → ℕ → ℕ → Cmd W (Unit {0})} {disk : ℕ → ℕ}
    (reader : Reader read disk) (frame : Frame) where
  boot_extent-IsBoot :
      (max_lbas : ℕ) (tguid pguid : Option Guid) {s : State W}
      → reader.IsReady s
      → (extent : Extent) × Yields reader.IsReady extent
          (boot_extent read frame max_lbas tguid pguid s)
        × IsBoot disk max_lbas tguid pguid extent
  unfolding boot_extent
  boot_extent-IsBoot max_lbas tguid pguid ready =
      let y = check_signature-IsReady reader frame ready in
      let found : Found = search disk max_lbas tguid pguid (header disk).count 0 (raw max_lbas) in
      elim (Bool-cases (is_signed disk)) [
        | inl e ↦ (
          found.extent,
          bind _ y (λ s r. rw e (
              bind _ (find_partition-search reader frame (raw max_lbas) max_lbas tguid pguid r)
                (λ s r. yields _ s r))),
          partition found e (search-IsChoice disk max_lbas tguid pguid (raw max_lbas)),
        )
        | inr e ↦ (raw max_lbas, bind _ y (λ s r. rw e (yields _ s r)), unpartitioned e)
      ]

  -- Booting from a disk that reads as much as the buffer takes without error, whose first entry is sound: it enters the next stage,
  -- in a state where the buffer holds the extent to boot, which is the table's choice or the start of
  -- a disk without a table and which fits the buffer, and where the scratch registers hold the
  -- pointers.
  pub boot_part_else_raw-IsLaunch :
      (boot_next_stage : ℕ → Cmd W (Unit {0})) (base_regs self priv gp code_buf max_lbas : ℕ)
      (tguid pguid : Option Guid) {s : State W}
      → 0 < max_lbas
      → 0x200 * max_lbas ≤ reader.limit
      → IsSound max_lbas (extent_at disk 0)
      → (code_buf + 0x200 * max_lbas ≤ base_regs) ⊎ (base_regs + 0x10 ≤ code_buf)
      → reader.IsReady s
      → (s' : State W) × (boot_part_else_raw read frame boot_next_stage base_regs self priv gp
            code_buf max_lbas tguid pguid s
          ≡ boot_next_stage code_buf s')
        × IsLaunch disk max_lbas tguid pguid code_buf base_regs self priv gp s'.mem
  unfolding boot_part_else_raw
  boot_part_else_raw-IsLaunch boot_next_stage base_regs self priv gp code_buf max_lbas tguid pguid
        {s} pos limited sound apart ready =
      let (extent, boots, chosen) = boot_extent-IsBoot max_lbas tguid pguid ready in
      let fits = len_of-IsBoot pos sound chosen in
      let y =
        reader.delivers code_buf (addr_of extent) (len_of extent) boots.final (omega arith)
          boots.holds in
      (
        record y.final { mem = with_scratch base_regs self priv gp y.final.mem },
        rw (boots.runs, y.runs) refl,
        record {
          extent = extent;
          chosen = chosen;
          fits = fits;
          loaded =
              with_scratch-apart base_regs self priv gp y.final.mem code_buf (len_of extent)
                (ground arith)
              ∙ y.holds.1;
          scratch0 = scratch0_lem base_regs self priv gp y.final.mem;
          scratch1 = scratch1_lem base_regs self priv gp y.final.mem;
          scratch3 = load_bytes-store_bytes (base_regs + 0xc) (le_bytes 4 gp) _;
        },
      )
