-- ===== src/Boot/Tests.antt =====
-- The zero-stage loader on a simulated disk, on a board whose devices do nothing.
use cheshire_can.Prelude.{ℕ, zero, suc, ◌<◌, ◌≤◌, true, false, none, some, ◌≡◌, refl, arith}
use cheshire_can.Machine.Store.{load_bytes, store_bytes}
use cheshire_can.Machine.Yields.{Yields}
use cheshire_can.Gpt.{Extent, Guid}
use cheshire_can.Gpt.Choice.{header, extent_at, is_candidate}
use cheshire_can.Gpt.Boot.{addr_of, len_of}
use cheshire_can.Gpt.Sim.{disk, deliver, reader, empty}
use cheshire_can.Boot.Sim.{idle_board}
use cheshire_can.Boot.{Board, load_part_or_spin}
use cheshire_can.Boot.Parts.{load_part_or_spin-copies}

abbrev board : Board (Unit {0})
board = idle_board

abbrev kind : Guid
kind = record { low = 7; high = 9 }

abbrev stale : Extent
stale = record { lba_begin = 3; lba_end = 1 }

second_hit : is_candidate disk 256 (some kind) none 1 ≡ true
unfolding load_bytes store_bytes
second_hit = refl

first_miss : (q : ℕ) → q < 1 → is_candidate disk 256 (some kind) none q ≡ false
unfolding load_bytes store_bytes
first_miss zero h = refl
first_miss (suc q) h = absurd (omega arith)

two_entries : 1 < (header disk).count
unfolding load_bytes store_bytes
two_entries = omega arith

second_fits : len_of (extent_at disk 1) ≤ 0x100000
unfolding load_bytes store_bytes
second_fits = omega arith

load_part_or_spin-copies_example :
    Yields
      (λ s'.
        load_bytes 0x80000000 (len_of (extent_at disk 1)) s'.mem
        ≡ load_bytes (addr_of (extent_at disk 1)) (len_of (extent_at disk 1)) disk)
      tt
      (load_part_or_spin board deliver stale kind 0x80000000 256
        (record { world = tt; mem = empty }))
load_part_or_spin-copies_example =
    load_part_or_spin-copies disk 256 kind stale 1 board reader 0x80000000 two_entries second_hit
      first_miss second_fits tt
