-- ===== src/Clint/Tests.antt =====
-- A wait and a measurement on a simulated clock.
use cheshire_can.Prelude.{ℕ, ◌+◌, ◌*◌, ◌/◌, ◌%◌, ◌^◌, ◌<◌, ◌≤◌, ◌≡◌, refl, arith}
use cheshire_can.Machine.{State}
use cheshire_can.Machine.Yields.{Yields}
use cheshire_can.Clint.{Clint, clint_spin_until, clint_get_core_freq}
use cheshire_can.Clint.Frequency.{Steady, clint_get_core_freq-measures, clint_spin_until-ends}

abbrev initial : State ℕ
initial = record { world = 10; mem = λ p. 0 }

-- A core of 50 cycles for every tick, whose reads take a cycle.
abbrev core : Clint ℕ
core = record {
  mtime_high = λ w. (w / 50 / 2 ^ 32, w);
  mtime_low = λ w. (w / 50 % 2 ^ 32, w + 1);
  write32 = λ offs value w. w;
  mcycle = λ w. (w, w + 1);
  wait_for_interrupt = λ w. w;
}

abbrev steady : Steady core 50 1
steady = record {
  cycle = λ w. w;
  mcycle_runs = λ w. (w, w + 1, refl, omega arith, omega arith, omega arith);
  mtime_runs = λ w. (w, w, w + 1, refl, refl, omega arith, omega arith, omega arith);
}

-- A wait for a time of a few ticks later.
clint_spin_until-ends_example :
    Yields
      (λ s'. (3 * 50 ≤ s'.world) × (s'.mem ≡ initial.mem))
      tt
      (clint_spin_until core 200 3 initial)
clint_spin_until-ends_example =
    clint_spin_until-ends steady 200 3 initial (omega arith) (omega arith)

-- A reference of 32768 Hz, for a period of 1 / 2500 seconds: 13 ticks.
clint_get_core_freq-measures_example :
    (f : ℕ) × Yields
      (λ s'. s'.mem ≡ initial.mem)
      f
      (clint_get_core_freq core 1000 32768 2500 initial)
    × (f * 13 ≤ (13 * 50 + 4 * 1) * 32768)
    × (13 * 50 * 32768 < (f + 1) * 13 + 4 * 1 * 32768)
clint_get_core_freq-measures_example =
    clint_get_core_freq-measures steady (omega arith) (omega arith) 1000 32768 2500 initial
      (omega arith) (omega arith) (omega arith) (omega arith)
