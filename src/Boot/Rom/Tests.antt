-- ===== src/Boot/Rom/Tests.antt =====
-- A board with a chip that is busy for two status reads after every command, and a core of 50 cycles for
-- every tick of its timer.
use cheshire_can.Prelude.{
  ℕ, zero, suc, ◌+◌, ◌-◌, ◌/◌, ◌%◌, ◌^◌, List, [], ◌∷◌, ◌++◌, ◌≡◌, refl, arith, bit_and, ◌!=◌, leb,
  if◌then◌else◌,
}
use cheshire_can.Word.{le_value, le_bytes}
use cheshire_can.Machine.{State}
use cheshire_can.Machine.Store.{Bytes, load_bytes, store_bytes}
use cheshire_can.Machine.Yields.{Yields}
use cheshire_can.Spi.{Segment, opcode, address, rx}
use cheshire_can.Clint.Frequency.{Steady}
use cheshire_can.Flash.Link.{Link, is_command, read_status}
use cheshire_can.Flash.Log.{Commands, mode_log, sectors_log}
use cheshire_can.Flash.Program.{Told}
use cheshire_can.Flash.Start.{Starts}
use cheshire_can.Boot.Sim.{idle_board}
use cheshire_can.Boot.{Board, flash_main}
use cheshire_can.Boot.Rom.{handle_of, flash_main-Told}

record Soc : Type 0 where
  log : Commands
  busy : ℕ
  cycle : ℕ

abbrev chip : ℕ → ℕ
chip a = a % 256

abbrev answer : List Segment → Bytes
answer (opcode code ∷ address a ∷ rx n ∷ []) = load_bytes a n chip
answer _ = []

abbrev status : ℕ → ℕ
status zero = 0
status (suc left) = 1

abbrev looked : Soc → Soc
looked w = record w {
  log = w.log ++ (if leb 1 w.busy then [] else read_status ∷ []);
  busy = w.busy - 1;
}

abbrev move : List Segment → Soc → ℕ × Bytes × Soc
move segments w =
    if is_command segments
    then (0, answer segments, record w { log = w.log ++ segments ∷ []; busy = 2 })
    else (0, status w.busy ∷ [], looked w)

abbrev tick : Soc → Soc
tick w = record w { cycle = w.cycle + 1 }

abbrev board : Board Soc
board = record idle_board {
  spi = record {
    num_cs = 3;
    rx_depth = 64;
    init = λ w. (0, w);
    reset = λ w. w;
    configure_cs = λ config cs w. (0, w);
    enable = λ w. w;
    output_set_enabled = λ on w. (0, w);
    transaction = λ cs segments w. move segments w;
    transaction_csaat = λ cs segments w. move segments w;
  };
  clint = record {
    mtime_high = λ w. (w.cycle / 50 / 2 ^ 32, w);
    mtime_low = λ w. (w.cycle / 50 % 2 ^ 32, tick w);
    write32 = λ offs value w. w;
    mcycle = λ w. (w.cycle, tick w);
    wait_for_interrupt = λ w. w;
  };
  rounds = 10000;
}

status_bit : (busy : ℕ) → (bit_and (status busy) 1 != 0) ≡ leb 1 busy
status_bit zero = refl
status_bit (suc left) = ground arith

status_errors : (busy : ℕ) → bit_and (status busy) 0x60 ≡ 0
status_errors zero = refl
status_errors (suc left) = refl

abbrev link : Link board.spi 1 chip 3
link = record {
  wraps = λ a i. omega arith;
  log = λ w. w.log;
  busy = λ w. w.busy;
  read_runs = λ w a n.
      (record w { log = w.log ++ (opcode 0x13 ∷ address a ∷ rx n ∷ []) ∷ []; busy = 2 }, refl);
  command_runs = λ w segments e. (
    answer segments,
    record w { log = w.log ++ segments ∷ []; busy = 2 },
    rw e refl,
    refl,
    omega arith,
  );
  status_runs =
      λ w. (status w.busy, looked w, refl, status_bit w.busy, status_errors w.busy, refl, refl);
}

abbrev host : Starts board.spi
host = record {
  init_runs = λ w. (w, refl);
  configure_runs = λ config csid w. (w, refl);
  output_runs = λ on w. (w, refl);
}

abbrev steady : Steady board.clint 50 1
steady = record {
  cycle = λ w. w.cycle;
  mcycle_runs = λ w. (w.cycle, tick w, refl, omega arith, omega arith, omega arith);
  mtime_runs = λ w. (w.cycle, w, tick w, refl, refl, omega arith, omega arith, omega arith);
}

-- The registers: the mode is 2 and the reference clock has 32768 Hz; for the flash tool the target is 2,
-- and two sectors from sector 63 on are to be flashed.
abbrev initial : State Soc
initial = record {
  world = record { log = []; busy = 0; cycle = 1000 };
  mem =
      store_bytes 0x3000000 (le_bytes 4 2 ++ le_bytes 4 0x8000 ++ le_bytes 4 63 ++ le_bytes 4 2)
        (store_bytes 0x3000040 (le_bytes 4 2 ++ le_bytes 4 32768) (λ p. p % 7));
}

rtc_reg : le_value (load_bytes 0x3000044 4 initial.mem) ≡ 32768
unfolding load_bytes store_bytes
rtc_reg = refl

target_reg : le_value (load_bytes 0x3000000 4 initial.mem) ≡ 2
unfolding load_bytes store_bytes
target_reg = refl

image_reg : le_value (load_bytes 0x3000004 4 initial.mem) ≡ 0x8000
unfolding load_bytes store_bytes
image_reg = refl

sector_reg : le_value (load_bytes 0x3000008 4 initial.mem) ≡ 63
unfolding load_bytes store_bytes
sector_reg = refl

count_reg : le_value (load_bytes 0x300000c 4 initial.mem) ≡ 2
unfolding load_bytes store_bytes
count_reg = refl

flash_main-Told_example :
    (f : ℕ) × (log : Commands) × Yields
      (Told
        (handle_of f)
        link
        ((log ++ mode_log) ++ sectors_log 0x8000 63 initial.mem 2 0)
        initial.mem)
      tt
      (flash_main board initial)
flash_main-Told_example =
    flash_main-Told board link host steady 32768 0x8000 63 2 initial rtc_reg target_reg image_reg
      sector_reg count_reg (omega arith) (omega arith) (omega arith) (omega arith) (omega arith)
      (omega arith) (omega arith) (omega arith) (omega arith)
