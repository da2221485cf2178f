-- ===== src/Gpt/Tests.antt =====
-- Booting from a simulated disk with a table of two entries, of which the second is looked for.
use cheshire_can.Prelude.{none, ◌≡◌, arith, inr}
use cheshire_can.Machine.{State, pure}
use cheshire_can.Machine.Store.{load_bytes, store_bytes}
use cheshire_can.Machine.Yields.{Yields}
use cheshire_can.Gpt.{Extent, Found, find_partition, boot_part_else_raw}
use cheshire_can.Gpt.Choice.{IsChoice, extent_at}
use cheshire_can.Gpt.Find.{find_partition-IsChoice}
use cheshire_can.Gpt.Sim.{disk, deliver, reader, wanted, frame, empty}
use cheshire_can.Gpt.Boot.{IsLaunch, IsSound, boot_part_else_raw-IsLaunch}

abbrev initial : State (Unit {0})
initial = record { world = tt; mem = empty }

abbrev nothing : Extent
nothing = record { lba_begin = 0; lba_end = 0 }

find_partition-IsChoice_example :
    (found : Found) × Yields reader.IsReady found
      (find_partition deliver frame nothing 256 wanted none initial)
    × IsChoice disk 256 wanted none nothing found
find_partition-IsChoice_example = find_partition-IsChoice reader frame nothing 256 wanted none tt

first-IsSound : IsSound 256 (extent_at disk 0)
unfolding load_bytes store_bytes
first-IsSound = record { forward = omega arith; no_wrap = omega arith }

boot_part_else_raw-IsLaunch_example :
    (s' : State (Unit {0})) × (boot_part_else_raw deliver frame
        (λ code_buf. pure tt)
        0x3000000
        0x2000e50
        0x10
        0x1800
        0x10000000
        256
        wanted
        none
        initial
      ≡ pure tt s')
    × IsLaunch disk 256 wanted none 0x10000000 0x3000000 0x2000e50 0x10 0x1800 s'.mem
boot_part_else_raw-IsLaunch_example =
    boot_part_else_raw-IsLaunch reader frame (λ code_buf. pure tt) 0x3000000 0x2000e50 0x10 0x1800
      0x10000000 256 wanted none (omega arith) (omega arith) first-IsSound (inr (omega arith)) tt
