-- ===== src/Flash/Log.antt =====
-- What flashing is to tell the chip, written down without any driver.
use cheshire_can.Prelude.{ℕ, zero, suc, ◌+◌, ◌*◌, List, [], ◌∷◌, ◌++◌, if◌then◌else◌}
use cheshire_can.Word.{u32, u64, ◌<<<◌}
use cheshire_can.Machine.Store.{Memory, load_bytes}
use cheshire_can.Spi.{Segment, opcode, address, tx, rx}
use cheshire_can.Flash.Link.{read_status}
use cheshire_can.Flash.{erases_small, small_sectors}

abbrev pub Commands : Type 0
Commands = List (List Segment)

-- A write is enabled by a command of its own, and waited for: the chip is found idle before what follows.
abbrev pub enabled : List Segment → Commands
enabled segments = (opcode 0x06 ∷ []) ∷ segments ∷ read_status ∷ []

abbrev pub erase_small_log : ℕ → ℕ → ℕ → Commands
erase_small_log addr_4kib zero i = []
erase_small_log addr_4kib (suc left) i =
    enabled (opcode 0x21 ∷ address (u32 (addr_4kib + (i <<< 12))) ∷ [])
    ++ erase_small_log addr_4kib left (i + 1)

-- The pages of a sector from byte `p` on, as many as are left: each is told its address and its bytes.
abbrev pub pages_log : ℕ → ℕ → Memory → ℕ → ℕ → Commands
pages_log buf sector_addr m zero p = []
pages_log buf sector_addr m (suc left) p =
    enabled (opcode 0x12 ∷ address (u32 (sector_addr + p)) ∷ tx (load_bytes (buf + p) 256 m) ∷ [])
    ++ pages_log buf sector_addr m left (p + 256)

-- A sector is erased, and then programmed page by page.
abbrev pub sector_log : ℕ → ℕ → Memory → Commands
sector_log buf sector_addr m =
    (if erases_small sector_addr
      then erase_small_log (small_sectors sector_addr (256 * 1024)) 8 0
      else [])
    ++ (enabled (opcode 0xdc ∷ address (u32 sector_addr) ∷ [])
        ++ pages_log buf sector_addr m 1024 0)

abbrev pub sectors_log : ℕ → ℕ → Memory → ℕ → ℕ → Commands
sectors_log buf sector m zero s = []
sectors_log buf sector m (suc left) s =
    sector_log (buf + (s <<< 18)) (u64 (u64 (sector + s) <<< 18)) m
    ++ sectors_log buf sector m left (s + 1)

-- The commands in front of the sectors.
abbrev pub mode_log : Commands
mode_log =
    (opcode 0x06 ∷ []) ∷ (opcode 0xb7 ∷ []) ∷ enabled (opcode 0x71 ∷ address 0x00800004 ∷ rx 1 ∷ [])
