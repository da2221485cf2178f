-- ===== src/Dma/Sim.antt =====
-- A simulated engine that is done at the second look.
use cheshire_can.Prelude.{ℕ, zero, suc, ◌+◌, ◌-◌, ◌≡◌, refl, arith, ◌==◌, if◌then◌else◌}
use cheshire_can.Machine.{State}
use cheshire_can.Machine.Store.{Memory}
use cheshire_can.Dma.{Dma}
use cheshire_can.Dma.Copy.{Setup, transfer, Engine}

pub record Model : Type 0 where
  pub setup : Setup
  pub running : ℕ
  pub left : ℕ
  pub pending : Memory

abbrev pub written : ℕ → ℕ → Setup → Setup
written offs v t =
    if offs == 0xd8
    then record t { src = v }
    else if offs == 0xd0
    then record t { dst = v }
    else if offs == 0xe0
    then record t { size = v }
    else if offs == 0x0
    then record t { conf = v }
    else if offs == 0xe8
    then record t { dst_stride = v }
    else if offs == 0xf0
    then record t { src_stride = v }
    else if offs == 0xf8
    then record t { reps = v }
    else t

abbrev pub started : State Model → State Model
started s = record s {
  world = record s.world {
    running = s.world.running + 1;
    left = 1;
    pending = transfer s.world.setup s.mem;
  };
}

abbrev pub answer : ℕ → ℕ → ℕ
answer zero running = running
answer (suc left) running = running + 1

abbrev pub after : ℕ → Memory → Memory → Memory
after zero pending mem = pending
after (suc left) pending mem = mem

abbrev pub looked : State Model → State Model
looked s = record {
  world = record s.world { left = s.world.left - 1 };
  mem = after s.world.left s.world.pending s.mem;
}

abbrev pub sim : Dma Model
sim = record {
  read64 = λ offs s.
      if offs == 0x44
      then (s.world.running + 1, started s)
      else (answer s.world.left s.world.running, looked s);
  write64 =
      λ offs v s. record s { world = record s.world { setup = written offs v s.world.setup } };
}

pub answer_test : (left running : ℕ) → (answer left running == running) ≡ (left == 0)
answer_test zero running = ground arith
answer_test (suc left) running = ground arith

abbrev pub engine : Engine sim 2
engine = record {
  setup = λ s. s.world.setup;
  running = λ s. s.world.running;
  left = λ s. s.world.left;
  result = λ s. s.world.pending;
  sets_src = λ v s. refl;
  sets_dst = λ v s. refl;
  sets_size = λ v s. refl;
  sets_conf = λ v s. refl;
  sets_dst_stride = λ v s. refl;
  sets_src_stride = λ v s. refl;
  sets_reps = λ v s. refl;
  keeps = λ offs v s. refl;
  starts = λ s. (s.world.running + 1, started s, refl, refl, omega arith, refl);
  looks = λ s. (
    answer s.world.left s.world.running,
    looked s,
    refl,
    answer_test s.world.left s.world.running,
    refl,
    refl,
    refl,
    λ e. rw e refl,
  );
}
