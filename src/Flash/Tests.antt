-- ===== src/Flash/Tests.antt =====
-- The flash driver on a simulated chip that is busy for two status reads after every command.
use cheshire_can.Prelude.{
  ℕ, zero, suc, ◌-◌, ◌%◌, none, List, [], ◌∷◌, ◌++◌, ◌≡◌, refl, arith, inr, bit_and, ◌!=◌, leb,
  if◌then◌else◌,
}
use cheshire_can.Machine.{State, pure}
use cheshire_can.Machine.Store.{Bytes, Memory, load_bytes, store_bytes}
use cheshire_can.Machine.Yields.{Yields}
use cheshire_can.Spi.{Dif, Segment, opcode, address, rx}
use cheshire_can.Gpt.{Frame, boot_part_else_raw}
use cheshire_can.Gpt.Choice.{extent_at}
use cheshire_can.Gpt.Boot.{IsLaunch, IsSound}
use cheshire_can.Flash.{Flash, single_read, single_flash}
use cheshire_can.Flash.Link.{Link, is_command, read_status}
use cheshire_can.Flash.Log.{Commands, mode_log, sectors_log}
use cheshire_can.Flash.Read.{single_read-delivers}
use cheshire_can.Flash.Program.{Told, single_flash-programs}
use cheshire_can.Flash.Boot.{boot_part_else_raw-single_read}

record Chip : Type 0 where
  log : Commands
  busy : ℕ

abbrev chip : ℕ → ℕ
chip a = a % 256

abbrev flash : Flash
flash = record { spi_freq = 40000000; csid = 1 }

abbrev answer : List Segment → Bytes
answer (opcode code ∷ address a ∷ rx n ∷ []) = load_bytes a n chip
answer _ = []

abbrev status : ℕ → ℕ
status zero = 0
status (suc left) = 1

abbrev looked : Chip → Chip
looked w = record w {
  log = w.log ++ (if leb 1 w.busy then [] else read_status ∷ []);
  busy = w.busy - 1;
}

abbrev move : List Segment → Chip → ℕ × Bytes × Chip
move segments w =
    if is_command segments
    then (0, answer segments, record { log = w.log ++ segments ∷ []; busy = 2 })
    else (0, status w.busy ∷ [], looked w)

abbrev sim : Dif Chip
sim = record {
  num_cs = 3;
  rx_depth = 64;
  init = λ w. (0, w);
  reset = λ w. w;
  configure_cs = λ config cs w. (0, w);
  enable = λ w. w;
  output_set_enabled = λ on w. (0, w);
  transaction = λ cs segments w. move segments w;
  transaction_csaat = λ cs segments w. move segments w;
}

status_bit : (busy : ℕ) → (bit_and (status busy) 1 != 0) ≡ leb 1 busy
status_bit zero = refl
status_bit (suc left) = ground arith

status_errors : (busy : ℕ) → bit_and (status busy) 0x60 ≡ 0
status_errors zero = refl
status_errors (suc left) = refl

abbrev link : Link sim 1 chip 3
link = record {
  wraps = λ a i. omega arith;
  log = λ w. w.log;
  busy = λ w. w.busy;
  read_runs = λ w a n.
      (record { log = w.log ++ (opcode 0x13 ∷ address a ∷ rx n ∷ []) ∷ []; busy = 2 }, refl);
  command_runs = λ w segments e. (
    answer segments,
    record { log = w.log ++ segments ∷ []; busy = 2 },
    rw e refl,
    refl,
    omega arith,
  );
  status_runs =
      λ w. (status w.busy, looked w, refl, status_bit w.busy, status_errors w.busy, refl, refl);
}

abbrev image : Memory
image p = p % 7

abbrev initial : State Chip
initial = record { world = record { log = []; busy = 0 }; mem = image }

single_read-delivers_example :
    Yields
      (λ s'. s'.mem ≡ store_bytes 0x8000 (load_bytes 100 1000 chip) image)
      tt
      (single_read sim flash 0x8000 100 1000 initial)
single_read-delivers_example =
    single_read-delivers flash link 0x8000 100 1000 initial (omega arith) (omega arith)
      (omega arith)

single_flash-programs_example :
    Yields
      (Told flash link (([] ++ mode_log) ++ sectors_log 0x8000 63 image 2 0) image)
      tt
      (single_flash sim flash 5 0x8000 63 2 initial)
single_flash-programs_example =
    single_flash-programs flash link 5 0x8000 63 2 (omega arith) (omega arith)
      (record { logged = refl; memory = refl })

abbrev frame : Frame
frame = record { sig = 0x100; hf = 0x110; dim = 0x120; guid = 0x130 }

first-IsSound : IsSound 16 (extent_at chip 0)
unfolding load_bytes
first-IsSound = record { forward = omega arith; no_wrap = omega arith }

boot_part_else_raw-single_read_example :
    (s' : State Chip) × (boot_part_else_raw
        (single_read sim flash)
        frame
        (λ code_buf. pure tt)
        0x3000000
        0x2000e50
        0x10
        0x1800
        0x10000000
        16
        none
        none
        initial
      ≡ pure tt s')
    × IsLaunch chip 16 none none 0x10000000 0x3000000 0x2000e50 0x10 0x1800 s'.mem
boot_part_else_raw-single_read_example =
    boot_part_else_raw-single_read flash link frame (λ code_buf. pure tt) 0x3000000 0x2000e50 0x10
      0x1800 0x10000000 16 none none initial (omega arith) (omega arith) (omega arith) (omega arith)
      (omega arith) first-IsSound (inr (omega arith))
