-- ===== src/I2c/Sim.antt =====
-- A simulated bus with an EEPROM, whose bytes have arrived at the second look, on a core of 50 cycles for
-- every tick of the timer.
use cheshire_can.Prelude.{
  ℕ, zero, suc, ◌+◌, ◌-◌, ◌*◌, ◌/◌, ◌%◌, ◌^◌, ◌≤◌, Bool, true, false, List, [], ◌∷◌, ◌++◌, length,
  ◌≡◌, refl, ap, arith,
}
use cheshire_can.Machine.Store.{Memory, Bytes, load_bytes}
use cheshire_can.Clint.{Clint}
use cheshire_can.Clint.Frequency.{Steady}
use cheshire_can.I2c.{Fmt, fmt_start, fmt_tx, fmt_tx_stop, fmt_rx, Levels, I2c}
use cheshire_can.I2c.Eeprom.{Eeprom}

pub record Model : Type 0 where
  pub enabled : Bool
  pub queue : List (ℕ × Fmt)
  pub arrived : Bytes
  pub sent : List (List (ℕ × Fmt))
  pub left : ℕ
  pub cycle : ℕ

abbrev pub image : Memory
image p = p * 7 % 251

abbrev pub answer : List (ℕ × Fmt) → Bytes
answer ((c, fmt_start) ∷ (high, fmt_tx) ∷ (low, fmt_tx_stop) ∷ (d, fmt_start) ∷ (n, fmt_rx) ∷ []) =
    load_bytes (high * 2 ^ 8 + low) n image
answer other = []

abbrev pub writes : List (ℕ × Fmt) → List (List (ℕ × Fmt))
writes ((c, f) ∷ (high, g) ∷ (low, fmt_tx) ∷ rest) =
    ((c, f) ∷ (high, g) ∷ (low, fmt_tx) ∷ rest) ∷ []
writes other = []

abbrev pub levels : ℕ → Bytes → Levels
levels zero arrived = record { fmt = 0; rx = length arrived; tx = 0; acq = 0 }
levels (suc left) arrived = record { fmt = 1; rx = 0; tx = 0; acq = 0 }

abbrev pub first : Bytes → ℕ
first [] = 0
first (byte ∷ rest) = byte

abbrev pub others : Bytes → Bytes
others [] = []
others (byte ∷ rest) = rest

abbrev pub switch : Bool → Model → Model
switch false w = record w { enabled = false }
switch true w = record w {
  enabled = true;
  queue = [];
  arrived = answer w.queue;
  sent = w.sent ++ writes w.queue;
  left = 1;
}

abbrev pub sim : I2c Model
sim = record {
  fifo_depth = 8;
  init = λ w. (0, w);
  set_enabled = λ on w. (0, switch on w);
  reset_acq_fifo = λ w. (0, w);
  reset_fmt_fifo = λ w. (0, w);
  reset_rx_fifo = λ w. (0, w);
  reset_tx_fifo = λ w. (0, w);
  compute_timing = λ timing w. (0, w);
  configure = λ timing w. (0, w);
  get_fifo_levels = λ w. (0, levels w.left w.arrived, record w { left = w.left - 1 });
  write_byte = λ byte format quiet w. (0, record w { queue = w.queue ++ (byte, format) ∷ [] });
  read_byte = λ w. (0, first w.arrived, record w { arrived = others w.arrived });
}

abbrev pub core : Clint Model
core = record {
  mtime_high = λ w. (w.cycle / 50 / 2 ^ 32, w);
  mtime_low = λ w. (w.cycle / 50 % 2 ^ 32, record w { cycle = w.cycle + 1 });
  write32 = λ offs value w. w;
  mcycle = λ w. (w.cycle, record w { cycle = w.cycle + 1 });
  wait_for_interrupt = λ w. w;
}

abbrev pub steady : Steady core 50 1
steady = record {
  cycle = λ w. w.cycle;
  mcycle_runs =
      λ w. (w.cycle, record w { cycle = w.cycle + 1 }, refl, omega arith, omega arith, omega arith);
  mtime_runs = λ w. (
    w.cycle,
    w,
    record w { cycle = w.cycle + 1 },
    refl,
    refl,
    omega arith,
    omega arith,
    omega arith,
  );
}

pub looks_lem :
    (left : ℕ) (arrived : Bytes)
    → ((levels left arrived).rx ≤ length arrived)
      × (left ≡ 0 → (levels left arrived).rx ≡ length arrived)
looks_lem zero arrived = (omega arith, λ e. refl)
looks_lem (suc left) arrived = (omega arith, λ e. absurd (omega arith))

abbrev pub bus : Eeprom sim core image 2
bus = record {
  enabled = λ w. w.enabled;
  queue = λ w. w.queue;
  arrived = λ w. w.arrived;
  sent = λ w. w.sent;
  left = λ w. w.left;
  disables = λ w. (switch false w, refl, refl, refl, refl, refl);
  queues = λ byte format quiet w e room.
      (record w { queue = w.queue ++ (byte, format) ∷ [] }, refl, e, refl, refl, refl);
  writes = λ high low bytes w off queued empty.
      (switch true w, refl, refl, rw queued refl, ap (λ q. w.sent ++ writes q) queued, omega arith);
  answers = λ high low n w off queued empty small some_bytes fits inside.
      (switch true w, refl, refl, rw queued refl, omega arith);
  looks = λ w. (
    levels w.left w.arrived,
    record w { left = w.left - 1 },
    refl,
    refl,
    refl,
    refl,
    refl,
    (looks_lem w.left w.arrived).0,
    (looks_lem w.left w.arrived).1,
    λ over queue arrived. rw (over, arrived) refl,
  );
  reads = λ byte rest w e. (
    record w { arrived = others w.arrived },
    ap (λ t. (0, first t, record w { arrived = others w.arrived })) e,
    refl,
    ap others e,
    omega arith,
  );
  high_apart = λ w. (refl, refl, refl);
  low_apart = λ w. (refl, refl, refl);
}
