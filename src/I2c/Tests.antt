-- ===== src/I2c/Tests.antt =====
-- The control byte for an address in the upper block, and accesses on a simulated bus.
use cheshire_can.Prelude.{[], ◌%◌, true, ◌≡◌}
use cheshire_can.Word.{u8}
use cheshire_can.Machine.{State}
use cheshire_can.Machine.Yields.{Yields}
use cheshire_can.I2c.{ctrl_waddr}
use cheshire_can.I2c.Control.{ctrl_waddr-byte}
use cheshire_can.I2c.Sim.{Model}

ctrl_waddr-byte_example : u8 (ctrl_waddr 0x1f000) ≡ 0xa0
ctrl_waddr-byte_example = ctrl_waddr-byte 0x1f000

abbrev initial : State Model
initial = record {
  world = record { enabled = true; queue = []; arrived = []; sent = []; left = 0; cycle = 1000 };
  mem = λ p. p % 7;
}
