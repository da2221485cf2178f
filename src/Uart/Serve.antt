-- ===== src/Uart/Serve.antt =====
-- The debug server does what the protocol says.
use cheshire_can.Prelude.{List}
use cheshire_can.Machine.Yields.{Yields}
use cheshire_can.Uart.Line.{Line}
