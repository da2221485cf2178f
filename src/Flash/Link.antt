-- ===== src/Flash/Link.antt =====
-- What the flash driver relies on: reads deliver the chip's bytes, commands are logged, and so is a read of
-- the status that finds the chip idle. The chip is busy for a bounded number of them after each command.
use cheshire_can.Prelude.{
  ℕ, ◌+◌, ◌-◌, ◌<◌, Bool, true, List, [], ◌∷◌, ◌++◌, ◌≡◌, bit_and, ◌!=◌, leb, if◌then◌else◌,
}
use cheshire_can.Word.{u32}
use cheshire_can.Machine.Store.{Bytes, load_bytes}
use cheshire_can.Spi.{Dif, Segment, opcode, address, rx}

-- A read of the status, and the transactions that are commands: all others.
abbrev pub read_status : List Segment
read_status = opcode 0x05 ∷ rx 1 ∷ []

abbrev pub is_command : List Segment → Bool
is_command (opcode code ∷ segments) = code != 0x05
is_command _ = true

pub record Link {W : Type 0} (dif : Dif W) (csid : ℕ) (chip : ℕ → ℕ) (patience : ℕ) : Type 0 where
  -- Addresses wrap around at the chip's end.
  pub wraps : (a i : ℕ) → chip (u32 a + i) ≡ chip (a + i)
  pub log : W → List (List Segment)
  -- How many more status reads find the chip busy.
  pub busy : W → ℕ
  pub read_runs :
      (w : W) (a n : ℕ)
      → (w' : W) × (dif.transaction csid (opcode 0x13 ∷ address a ∷ rx n ∷ []) w
          ≡ (0, load_bytes a n chip, w'))
  pub command_runs :
      (w : W) (segments : List Segment)
      → is_command segments ≡ true
      → (bytes : Bytes) × (w' : W) × (dif.transaction csid segments w ≡ (0, bytes, w'))
        × (log w' ≡ log w ++ (segments ∷ []))
        × (busy w' < patience)
  -- The status has its lowest bit set while the chip is busy, and no error bits.
  pub status_runs :
      (w : W)
      → (status : ℕ) × (w' : W) × (dif.transaction csid read_status w ≡ (0, status ∷ [], w'))
        × ((bit_and status 1 != 0) ≡ leb 1 (busy w))
        × (bit_and status 0x60 ≡ 0)
        × (log w' ≡ log w ++ (if leb 1 (busy w) then [] else read_status ∷ []))
        × (busy w' ≡ busy w - 1)
