-- ===== src/Clint.antt =====
-- The timer, sw/lib/dif/clint.c. Its registers, the cycle counter and sleeping are hardware.
pub mod Frequency
pub mod Ticks
mod Tests
use cheshire_can.Prelude.{
  ℕ, zero, suc, ◌+◌, ◌*◌, ◌/◌, ◌%◌, ◌^◌, Bool, bit_or, ◌==◌, ltb, if◌then◌else◌,
}
use cheshire_can.Word.{u32, u64, sub64, ◌<<<◌, ◌>>>◌}
use cheshire_can.Machine.{Cmd, ok, pure, stuck, and_then, ◌>>=◌, ◌>>◌}

-- Reads of the two halves of the time, writes of a register at an offset, a read of the cycle counter,
-- and what the inline assembly does to wait for an interrupt.
pub record Clint (W : Type 0) : Type 0 where
  pub mtime_high : W → ℕ × W
  pub mtime_low : W → ℕ × W
  pub write32 : ℕ → ℕ → W → W
  pub mcycle : W → ℕ × W
  pub wait_for_interrupt : W → W

module _ {W : Type 0} (clint : Clint W) where
  abbrev pub read_clock : (W → ℕ × W) → Cmd W ℕ
  read_clock f s = let (value, w) = f s.world in ok value (record s { world = w })

  abbrev pub change : (W → W) → Cmd W (Unit {0})
  change f s = ok tt (record s { world = f s.world })

  unfoldable pub clint_get_mtime : Cmd W ℕ
  clint_get_mtime = do
    high ← read_clock clint.mtime_high
    low ← read_clock clint.mtime_low
    pure (bit_or (high <<< 32) low)

  -- The loops are for a number of rounds that the code does not bound.
  unfoldable pub clint_spin_until : ℕ → ℕ → Cmd W (Unit {0})
  clint_spin_until zero tgt_mtime = stuck
  clint_spin_until (suc rounds) tgt_mtime = do
    now ← clint_get_mtime
    let rest = clint_spin_until rounds tgt_mtime
    if ltb now tgt_mtime then rest else pure tt

  unfoldable pub clint_spin_ticks : ℕ → ℕ → Cmd W (Unit {0})
  clint_spin_ticks rounds ticks = do
    now ← clint_get_mtime
    clint_spin_until rounds (u64 (now + ticks))

  -- The cycle and the time at the first tick after `end_mtime`.
  unfoldable pub capture_start : ℕ → ℕ → Cmd W (ℕ × ℕ)
  capture_start zero end_mtime = stuck
  capture_start (suc rounds) end_mtime = do
    start_mcycle ← read_clock clint.mcycle
    start_mtime ← clint_get_mtime
    let rest = capture_start rounds end_mtime
    if start_mtime == end_mtime then rest else pure (start_mcycle, start_mtime)

  -- The cycle and the time once the time is not before `until`.
  unfoldable pub capture_end : ℕ → ℕ → Cmd W (ℕ × ℕ)
  capture_end zero until = stuck
  capture_end (suc rounds) until = do
    end_mcycle ← read_clock clint.mcycle
    end_mtime ← clint_get_mtime
    let rest = capture_end rounds until
    if ltb end_mtime until then rest else pure (end_mcycle, end_mtime)

  unfoldable pub clint_get_core_freq : ℕ → ℕ → ℕ → Cmd W ℕ
  clint_get_core_freq rounds ref_freq ref_time_inv = do
    let num_ticks = ref_freq / ref_time_inv
    initial ← clint_get_mtime
    start ← capture_start rounds initial
    final ← capture_end rounds (u64 (start.1 + num_ticks))
    pure (u64 (sub64 final.0 start.0 * ref_freq) / sub64 final.1 start.1)

  unfoldable pub clint_set_mtimecmpx : ℕ → ℕ → Cmd W (Unit {0})
  clint_set_mtimecmpx timer_idx value = do
    change (clint.write32 (0x4004 + (timer_idx <<< 3)) (u32 (value >>> 32)))
    change (clint.write32 (0x4000 + (timer_idx <<< 3)) (u32 value))

  unfoldable pub clint_sleep_until : ℕ → ℕ → Cmd W (Unit {0})
  clint_sleep_until timer_idx tgt_mtime = do
    now ← clint_get_mtime
    let sleep = clint_set_mtimecmpx timer_idx tgt_mtime >> change clint.wait_for_interrupt
    if ltb now tgt_mtime then pure tt else sleep

  unfoldable pub clint_sleep_ticks : ℕ → ℕ → Cmd W (Unit {0})
  clint_sleep_ticks timer_idx ticks = do
    now ← clint_get_mtime
    clint_sleep_until timer_idx (u64 (now + ticks))
