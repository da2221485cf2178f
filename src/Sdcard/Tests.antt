-- ===== src/Sdcard/Tests.antt =====
-- The driver on a simulated controller and card: the facts about reads and writes at concrete inputs.
mod Sim
mod Reads
mod Writes
mod Commands
