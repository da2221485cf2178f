-- ===== src/Gpt.antt =====
-- Booting from a GUID partition table, sw/lib/gpt.c. The disk is read by a function of the caller.
-- The locals that it fills lie in memory, at the addresses of a `Frame`, and are values once read.
pub mod Choice
pub mod Search
pub mod Find
pub mod Boot
pub mod Sim
mod Tests
use cheshire_can.Prelude.{
  ℕ, zero, suc, ◌+◌, ◌-◌, ◌*◌, ◌%◌, ◌^◌, Bool, true, false, ◌&&◌, Option, none, some, bit_or, ◌==◌,
  ltb, leb, if◌then◌else◌, take, drop,
}
use cheshire_can.Word.{u32, u64, min_c, sub64, le_value, le_bytes}
use cheshire_can.Machine.{Run, Cmd, ok, err, hang, pure, and_then, ◌>>=◌, ◌>>◌, load, store}
use cheshire_can.Machine.Store.{Bytes}

-- The header fields `hdr_fields`, the fields `part_fields` of an entry, and a GUID.
pub record Header : Type 0 where
  pub lba : ℕ
  pub count : ℕ
  pub size : ℕ

pub record Extent : Type 0 where
  pub lba_begin : ℕ
  pub lba_end : ℕ

pub record Guid : Type 0 where
  pub low : ℕ
  pub high : ℕ

-- What `gpt_find_partition` hands out: an index of -1 is `none`.
pub record Found : Type 0 where
  pub part_idx : Option ℕ
  pub extent : Extent

-- Where the locals lie whose addresses are passed on.
pub record Frame : Type 0 where
  pub sig : ℕ
  pub hf : ℕ
  pub dim : ℕ
  pub guid : ℕ

abbrev pub header_of : Bytes → Header
header_of bytes = record {
  lba = le_value (take 8 bytes);
  count = le_value (take 4 (drop 8 bytes));
  size = le_value (take 4 (drop 12 bytes));
}

abbrev pub extent_of : Bytes → Extent
extent_of bytes = record {
  lba_begin = le_value (take 8 bytes);
  lba_end = le_value (take 8 (drop 8 bytes));
}

abbrev pub guid_of : Bytes → Guid
guid_of bytes = record { low = le_value (take 8 bytes); high = le_value (take 8 (drop 8 bytes)) }

abbrev pub same_guid : Guid → Guid → Bool
same_guid a b = (a.low == b.low) && (a.high == b.high)

abbrev pub entry_offs : Header → ℕ → ℕ
entry_offs hf p = u64 (0x200 * hf.lba + p * hf.size)

-- The first partition is handed out in any case, but at most `max_lbas` blocks of it.
abbrev pub record_first : ℕ → ℕ → Extent → Extent → Extent
record_first max_lbas p dim extent =
    if p == 0
    then record {
      lba_begin = dim.lba_begin;
      lba_end = min_c dim.lba_end (sub64 (u64 (dim.lba_begin + max_lbas)) 1);
    }
    else extent

abbrev pub is_too_large : ℕ → Extent → Bool
is_too_large max_lbas dim = leb max_lbas (sub64 dim.lba_end dim.lba_begin)

-- A read that fails counts as no signature.
abbrev pub signed_if_read : {W : Type 0} → Run W Bytes → Run W Bool
signed_if_read (ok bytes s) = ok (le_value bytes == 0x5452415020494645) s
signed_if_read (err code s) = ok false s
signed_if_read hang = hang

-- `read buf addr len` is `read(priv, buf, addr, len)`.
module _ {W : Type 0} (read : ℕ → ℕ → ℕ → Cmd W (Unit {0})) (frame : Frame) where
  abbrev pub read_local : ℕ → ℕ → ℕ → Cmd W Bytes
  read_local p addr n = read p addr n >> load p n

  unfoldable pub check_signature : Cmd W Bool
  check_signature s = signed_if_read (read_local frame.sig 0x200 8 s)

  -- The GUID at an address of the disk, if one is looked for.
  unfoldable pub matches : Option Guid → ℕ → Cmd W Bool
  matches none addr = pure false
  matches (some wanted) addr = do
    bytes ← read_local frame.guid addr 16
    pure (same_guid (guid_of bytes) wanted)

  unfoldable pub is_wanted : Option Guid → Option Guid → ℕ → Cmd W Bool
  is_wanted tguid pguid pe_offs = do
    typed ← matches tguid pe_offs
    let other = matches pguid (u64 (pe_offs + 0x10))
    if typed then pure true else other

  -- The loop from entry `p` on, with so many entries left.
  unfoldable pub find_loop : Header → ℕ → Option Guid → Option Guid → ℕ → ℕ → Extent → Cmd W Found
  find_loop hf max_lbas tguid pguid zero p extent =
      pure (record { part_idx = none; extent = extent })
  find_loop hf max_lbas tguid pguid (suc left) p extent = do
    let pe_offs = entry_offs hf p
    bytes ← read_local frame.dim (u64 (pe_offs + 0x20)) 16
    let dim = extent_of bytes
    let rest = find_loop hf max_lbas tguid pguid left (p + 1) (record_first max_lbas p dim extent)
    let hit : Found = record { part_idx = some p; extent = dim }
    let look = is_wanted tguid pguid pe_offs >>= λ wanted. if wanted then pure hit else rest
    if is_too_large max_lbas dim then rest else look

  -- `gpt_find_partition`, with what its out-parameters hold before
  unfoldable pub find_partition : Extent → ℕ → Option Guid → Option Guid → Cmd W Found
  find_partition extent max_lbas tguid pguid = do
    bytes ← read_local frame.hf 0x248 16
    let hf = header_of bytes
    find_loop hf max_lbas tguid pguid hf.count 0 extent

  -- The extent that is booted: a partition's, or the disk's first blocks.
  unfoldable pub boot_extent : ℕ → Option Guid → Option Guid → Cmd W Extent
  boot_extent max_lbas tguid pguid = do
    let raw : Extent = record { lba_begin = 0; lba_end = sub64 max_lbas 1 }
    signed ← check_signature
    let find = find_partition raw max_lbas tguid pguid
    found ← if signed then find else pure (record { part_idx = none; extent = raw })
    pure found.extent

  -- `gpt_boot_part_else_raw`; `self` and `priv` are the pointers that are passed on, `gp` is the global
  -- pointer, and `boot_next_stage` is linked to it.
  unfoldable pub boot_part_else_raw :
      (boot_next_stage : ℕ → Cmd W (Unit {0})) (base_regs self priv gp : ℕ)
      → ℕ
      → ℕ
      → Option Guid
      → Option Guid
      → Cmd W (Unit {0})
  boot_part_else_raw boot_next_stage base_regs self priv gp code_buf max_lbas tguid pguid = do
    extent ← boot_extent max_lbas tguid pguid
    let addr = u64 (0x200 * extent.lba_begin)
    let len = u64 (0x200 * u64 (sub64 extent.lba_end extent.lba_begin + 1))
    read code_buf addr len
    store (base_regs + 0x0) (le_bytes 4 (bit_or self 1))
    store (base_regs + 0x4) (le_bytes 4 priv)
    store (base_regs + 0xc) (le_bytes 4 gp)
    boot_next_stage code_buf
