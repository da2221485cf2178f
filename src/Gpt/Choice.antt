-- ===== src/Gpt/Choice.antt =====
-- What booting asks of a disk, without any reading: which entry of the table is the right one.
use cheshire_can.Prelude.{
  ℕ, ◌+◌, ◌<◌, Bool, true, false, ◌&&◌, ◌||◌, not, Option, none, some, ◌≡◌, ◌==◌,
}
use cheshire_can.Word.{u64, le_value}
use cheshire_can.Machine.Store.{load_bytes}
use cheshire_can.Gpt.{
  Header, Extent, Guid, Found, header_of, extent_of, guid_of, same_guid, entry_offs, record_first,
  is_too_large,
}

module _ (disk : ℕ → ℕ) where
  abbrev pub header : Header
  header = header_of (load_bytes 0x248 16 disk)

  abbrev pub is_signed : Bool
  is_signed = le_value (load_bytes 0x200 8 disk) == 0x5452415020494645

  abbrev pub extent_at : ℕ → Extent
  extent_at p = extent_of (load_bytes (u64 (entry_offs header p + 0x20)) 16 disk)

  abbrev pub matches_at : Option Guid → ℕ → Bool
  matches_at none addr = false
  matches_at (some wanted) addr = same_guid (guid_of (load_bytes addr 16 disk)) wanted

  -- An entry that is small enough and has the type or the identity that is looked for.
  abbrev pub is_candidate : ℕ → Option Guid → Option Guid → ℕ → Bool
  is_candidate max_lbas tguid pguid p =
      not (is_too_large max_lbas (extent_at p))
      && (matches_at tguid (entry_offs header p)
          || matches_at pguid (u64 (entry_offs header p + 0x10)))

  -- The first candidate of the table, or else what was known before, or the start of the first entry.
  pub data IsChoice (max_lbas : ℕ) (tguid pguid : Option Guid) (before : Extent)
      : Found → Type 0 where
    first_candidate :
        (p : ℕ)
        → p < header.count
        → is_candidate max_lbas tguid pguid p ≡ true
        → ((q : ℕ) → q < p → is_candidate max_lbas tguid pguid q ≡ false)
        → IsChoice max_lbas tguid pguid before (record { part_idx = some p; extent = extent_at p })
    no_candidate :
        ((q : ℕ) → q < header.count → is_candidate max_lbas tguid pguid q ≡ false)
        → 0 < header.count
        → IsChoice max_lbas tguid pguid before
            (record { part_idx = none; extent = record_first max_lbas 0 (extent_at 0) before })
    no_entries :
        header.count ≡ 0
        → IsChoice max_lbas tguid pguid before (record { part_idx = none; extent = before })
