-- ===== src/I2c/Address.antt =====
-- How an access to the EEPROM begins, in sw/lib/hal/i2c_24fc1025.c.
use native.Mathlib.Nat.{mod-eq_of_lt}
use cheshire_can.Prelude.{
  ℕ, ◌-◌, ◌/◌, ◌%◌, ◌^◌, ◌≤◌, ◌<◌, true, false, List, [], ◌∷◌, ◌++◌, length, ◌≡◌, ap, ◌∙◌, arith,
  inl, inr, ltb, bit_and, max, ◌==◌, Bool-cases, if◌then◌else◌,
}
use cheshire_can.Word.{u8, ◌>>>◌}
use cheshire_can.Word.Mask.{bit_and-ones}
use cheshire_can.Machine.{State}
use cheshire_can.Machine.Store.{Memory}
use cheshire_can.Machine.Yields.{Yields, yields, bind}
use cheshire_can.Clint.{Clint}
use cheshire_can.Clint.Frequency.{Steady}
use cheshire_can.Clint.Ticks.{clint_spin_ticks-ends}
use cheshire_can.I2c.{Fmt, fmt_start, fmt_tx, I2c, access_address, send_byte}
use cheshire_can.I2c.Control.{ctrl_waddr-byte}
use cheshire_can.I2c.Eeprom.{Eeprom, Holds, wait_vacant}

-- What a read takes: all of the bytes, but if it starts inside a fill of the FIFOs, at least what is left of
-- that fill.
abbrev pub fetched : ℕ → ℕ → ℕ → ℕ
fetched depth addr len = if addr % depth == 0 then len else max len (depth - addr % depth)

-- The bytes of the address, for one of 16 bits, and the control byte of the second start.
high_byte : (addr : ℕ) → u8 (bit_and (addr >>> 8) 0xff) ≡ addr / 2 ^ 8 % 2 ^ 8
high_byte addr = rw (bit_and-ones 8 (addr / 2 ^ 8)) (omega arith)

low_byte : (addr : ℕ) → u8 (bit_and addr 0xff) ≡ addr % 2 ^ 8
low_byte addr = rw (bit_and-ones 8 addr) (omega arith)

-- One more entry of a queue that is known.
pub queued :
    {A : Type 0} {xs ys zs : List A} (x : A) → ys ≡ xs ++ x ∷ [] → xs ≡ zs → ys ≡ zs ++ x ∷ []
queued x e known = e ∙ ap (λ t. t ++ x ∷ []) known

-- A queue that is known has room if it is short.
pub room : {A : Type 0} {xs ys : List A} {n : ℕ} → xs ≡ ys → length ys < n → length xs < n
room e short = rw e short

-- A fill of the FIFOs divides 128.
pub depth_bound : (depth : ℕ) → 128 % depth ≡ 0 → depth ≤ 128
depth_bound depth e = elim (Bool-cases (ltb 128 depth)) [
  | inl large ↦ absurd (let same : 128 % depth ≡ 128 = mod-eq_of_lt (ground arith) in omega arith)
  | inr small ↦ ground arith
]

module _ {W : Type 0} {i2c : I2c W} {clint : Clint W} {image : Memory} {patience : ℕ}
    (bus : Eeprom i2c clint image patience) where
  -- Nothing is queued and nothing is left to be read.
  abbrev pub IsIdle : W → Type 0
  IsIdle w = Holds bus [] w × (bus.left w < patience)

module _ {W : Type 0} {i2c : I2c W} {clint : Clint W} {image : Memory} {patience ratio step : ℕ}
    (bus : Eeprom i2c clint image patience) (steady : Steady clint ratio step) (pos : 0 < ratio)
    (rounds : ℕ) (patient : patience ≤ rounds) (tick : ratio ≤ rounds)
    (deep : 4 < i2c.fifo_depth) where
  -- The first part of an access, and the queue that it leaves.
  pub access_address_lem :
      (addr : ℕ) (last : Fmt) (s : State W)
      → IsIdle bus s.world
      → Yields
          (λ s'.
            (bus.enabled s'.world ≡ false)
            × (bus.queue s'.world
                ≡ (0xa0, fmt_start) ∷ (addr / 2 ^ 8 % 2 ^ 8, fmt_tx) ∷ (addr % 2 ^ 8, last) ∷ [])
            × (bus.arrived s'.world ≡ [])
            × (bus.sent s'.world ≡ bus.sent s.world)
            × (s'.mem ≡ s.mem))
          tt
          (access_address i2c clint rounds addr last s)
  unfolding access_address send_byte
  access_address_lem addr last s idle =
      bind _ (wait_vacant bus rounds s idle.0 (omega arith)) λ s1 vacant.
        bind _
          (clint_spin_ticks-ends clint (λ w. Holds bus [] w × (bus.sent w ≡ bus.sent s.world))
            (λ w h. let (q, a, t) = bus.high_apart w in ((q ∙ h.0.0, a ∙ h.0.1), t ∙ h.1))
            (λ w h. let (q, a, t) = bus.low_apart w in ((q ∙ h.0.0, a ∙ h.0.1), t ∙ h.1)) steady
            rounds 1 s1 (vacant.0, vacant.1) pos (omega arith) (omega arith))
          λ s2 spun.
            let (w3, off, e3, q3, a3, t3) = bus.disables s2.world in
            let k3 = q3 ∙ spun.0.0.0 in
            let (w4, runs4, e4, q4, a4, t4) =
              bus.queues 0xa0 fmt_start true w3 e3 (room k3 (omega arith)) in
            let k4 = queued _ q4 k3 in
            let (w5, runs5, e5, q5, a5, t5) =
              bus.queues (addr / 2 ^ 8 % 2 ^ 8) fmt_tx true w4 e4 (room k4 (omega arith)) in
            let k5 = queued _ q5 k4 in
            let (w6, runs6, e6, q6, a6, t6) =
              bus.queues (addr % 2 ^ 8) last true w5 e5 (room k5 (omega arith)) in
            rw (off, ctrl_waddr-byte addr, runs4, high_byte addr, runs5, low_byte addr, runs6)
              (yields tt _ (
                e6,
                queued _ q6 k5,
                a6 ∙ a5 ∙ a4 ∙ a3 ∙ spun.0.0.1,
                t6 ∙ t5 ∙ t4 ∙ t3 ∙ spun.0.1,
                spun.1 ∙ vacant.2,
              ))
