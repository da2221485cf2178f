-- ===== src/Programs/Tests.antt =====
-- The programs on a board with a simulated DMA engine.
use cheshire_can.Prelude.{◌%◌, ◌≡◌, refl, inl, inr, arith}
use cheshire_can.Word.{le_bytes}
use cheshire_can.Machine.{State, ok, pure}
use cheshire_can.Machine.Store.{load_bytes, store_bytes}
use cheshire_can.Dma.Sim.{Model, sim, engine}
use cheshire_can.Boot.Sim.{idle_board}
use cheshire_can.Programs.{
  Bench, dma_bit, serial_link_bit, dma_1d_main, dma_2d_main, dma_slink_main,
}
use cheshire_can.Programs.Copies.{HasFeature, dma_1d_main-passes, dma_slink_main-passes}
use cheshire_can.Programs.Rows.{dma_2d_main-passes}

abbrev bench : Bench Model
bench = record {
  board = idle_board;
  dma = sim;
  src_cached = 0x10000100;
  dst_cached = 0x10000200;
  gold = 0x10000300;
  payload1 = 0x10001000;
  payload2 = 0x10001040;
  call = λ p. pure 0;
}

-- The features are the DMA engine and the serial link.
abbrev initial : State Model
initial = record {
  world = record {
    setup = record {
      src = 0;
      dst = 0;
      size = 0;
      conf = 0;
      dst_stride = 0;
      src_stride = 0;
      reps = 0;
    };
    running = 3;
    left = 0;
    pending = λ p. 0;
  };
  mem = store_bytes 0x3000050 (le_bytes 4 0xc0) (λ p. p % 251);
}

has_dma : HasFeature bench dma_bit initial
unfolding load_bytes store_bytes
has_dma = refl

dma_1d_main-passes_example : (t : State Model) × (dma_1d_main bench initial ≡ ok tt t)
dma_1d_main-passes_example =
    dma_1d_main-passes bench engine (omega arith) initial has_dma (inl (omega arith))
      (inr (omega arith)) (inr (omega arith)) (inr (omega arith))

dma_2d_main-passes_example : (t : State Model) × (dma_2d_main bench initial ≡ ok tt t)
dma_2d_main-passes_example =
    dma_2d_main-passes bench engine (omega arith) initial has_dma (inl (omega arith))
      (inr (omega arith)) (inr (omega arith)) (inr (omega arith))

has_link : HasFeature bench serial_link_bit initial
unfolding load_bytes store_bytes
has_link = refl

dma_slink_main-passes_example : (t : State Model) × (dma_slink_main bench initial ≡ ok tt t)
dma_slink_main-passes_example =
    dma_slink_main-passes bench engine (omega arith) initial has_dma has_link (inl (omega arith))
      (inl (omega arith)) (inr (omega arith)) (inr (omega arith))
