-- ===== src/Dma/Tests.antt =====
-- Copies by a simulated engine.
use cheshire_can.Prelude.{◌%◌, ◌≡◌, arith}
use cheshire_can.Machine.{State}
use cheshire_can.Machine.Store.{copy_bytes}
use cheshire_can.Machine.Yields.{Yields}
use cheshire_can.Dma.{dma_2d_blk_memcpy, dma_blk_memcpy}
use cheshire_can.Dma.Copy.{copy_rows, dma_2d_blk_memcpy-copies, dma_blk_memcpy-copies}
use cheshire_can.Dma.Sim.{Model, sim, engine}

abbrev initial : State Model
initial = record {
  world = record {
    setup = record {
      src = 0;
      dst = 0;
      size = 0;
      conf = 0;
      dst_stride = 0;
      src_stride = 0;
      reps = 0;
    };
    running = 3;
    left = 0;
    pending = λ p. 0;
  };
  mem = λ p. p % 256;
}

dma_blk_memcpy-copies_example :
    Yields
      (λ s'. s'.mem ≡ copy_bytes 0x2000 0x1000 100 initial.mem)
      tt
      (dma_blk_memcpy sim 10 0x2000 0x1000 100 0 initial)
dma_blk_memcpy-copies_example =
    dma_blk_memcpy-copies engine 10 0x2000 0x1000 100 0 initial (omega arith) (omega arith)

-- Rows that overlap at the destination.
dma_2d_blk_memcpy-copies_example :
    Yields
      (λ s'. s'.mem ≡ copy_rows 4 0x2000 0x1000 15 7 1 initial.mem)
      tt
      (dma_2d_blk_memcpy sim 10 0x2000 0x1000 15 7 1 4 0 initial)
dma_2d_blk_memcpy-copies_example =
    dma_2d_blk_memcpy-copies engine 10 0x2000 0x1000 15 7 1 4 0 initial (omega arith) (omega arith)
