-- ===== src/I2c/Eeprom.antt =====
-- What sw/lib/hal/i2c_24fc1025.c relies on of the I2C driver and of the EEPROM behind it, and what the
-- parts of an access do there.
use cheshire_can.Prelude.{
  ℕ, zero, suc, ◌+◌, ◌-◌, ◌*◌, ◌^◌, ◌≤◌, ◌<◌, Bool, true, false, List, [], ◌∷◌, ◌++◌, length, ◌≡◌,
  ◌⊎◌, refl, ap, ◌∙◌, arith, inl, inr, ltb, not, Bool-cases,
}
use cheshire_can.Word.{u8}
use cheshire_can.Machine.{State, ◌>>◌}
use cheshire_can.Machine.Store.{Memory, Bytes, load_bytes, store_bytes}
use cheshire_can.Machine.Yields.{Yields, yields, bind}
use cheshire_can.Clint.{Clint}
use cheshire_can.I2c.{
  Fmt, fmt_start, fmt_tx, fmt_tx_stop, fmt_rx, Levels, I2c, is_vacant, wait_levels, receive_bytes,
}

-- The bytes and the formats of a random read: the address after a start, and so many bytes read.
abbrev pub random_read : ℕ → ℕ → ℕ → List (ℕ × Fmt)
random_read high low n =
    (0xa0, fmt_start) ∷ (high, fmt_tx) ∷ (low, fmt_tx_stop) ∷ (0xa1, fmt_start) ∷ (n, fmt_rx) ∷ []

-- The address after a start, and bytes written, with no stop.
abbrev pub data_entries : Bytes → List (ℕ × Fmt)
data_entries [] = []
data_entries (byte ∷ bytes) = (u8 byte, fmt_tx) ∷ data_entries bytes

abbrev pub page_write : ℕ → ℕ → Bytes → List (ℕ × Fmt)
page_write high low bytes = (0xa0, fmt_start) ∷ (high, fmt_tx) ∷ (low, fmt_tx) ∷ data_entries bytes

-- A bus with an EEPROM of 64 KiB. Bytes are queued while the host is disabled and the queue is not full.
-- Enabling it sends them: `sent` has what was sent of writes, and what a read asks for has `arrived`. The
-- levels tell of all that has arrived, and of nothing else, after less than `patience` looks, and of no
-- more than that before.
pub record Eeprom {W : Type 0} (i2c : I2c W) (clint : Clint W) (image : Memory) (patience : ℕ)
    : Type 0 where
  pub enabled : W → Bool
  pub queue : W → List (ℕ × Fmt)
  pub arrived : W → Bytes
  pub sent : W → List (List (ℕ × Fmt))
  pub left : W → ℕ
  pub disables :
      (w : W)
      → (w' : W) × (i2c.set_enabled false w ≡ (0, w'))
        × (enabled w' ≡ false)
        × (queue w' ≡ queue w)
        × (arrived w' ≡ arrived w)
        × (sent w' ≡ sent w)
  pub queues :
      (byte : ℕ) (format : Fmt) (quiet : Bool) (w : W)
      → enabled w ≡ false
      → length (queue w) < i2c.fifo_depth
      → (w' : W) × (i2c.write_byte byte format quiet w ≡ (0, w'))
        × (enabled w' ≡ false)
        × (queue w' ≡ queue w ++ (byte, format) ∷ [])
        × (arrived w' ≡ arrived w)
        × (sent w' ≡ sent w)
  pub answers :
      (high low n : ℕ) (w : W)
      → enabled w ≡ false
      → queue w ≡ random_read high low n
      → arrived w ≡ []
      → low < 2 ^ 8
      → 0 < n
      → n ≤ i2c.fifo_depth
      → high * 2 ^ 8 + low + n ≤ 2 ^ 16
      → (w' : W) × (i2c.set_enabled true w ≡ (0, w'))
        × (queue w' ≡ [])
        × (arrived w' ≡ load_bytes (high * 2 ^ 8 + low) n image)
        × (left w' < patience)
  pub writes :
      (high low : ℕ) (bytes : Bytes) (w : W)
      → enabled w ≡ false
      → queue w ≡ page_write high low bytes
      → arrived w ≡ []
      → (w' : W) × (i2c.set_enabled true w ≡ (0, w'))
        × (queue w' ≡ [])
        × (arrived w' ≡ [])
        × (sent w' ≡ sent w ++ page_write high low bytes ∷ [])
        × (left w' < patience)
  pub looks :
      (w : W)
      → (levels : Levels) × (w' : W) × (i2c.get_fifo_levels w ≡ (0, levels, w'))
        × (queue w' ≡ queue w)
        × (arrived w' ≡ arrived w)
        × (sent w' ≡ sent w)
        × (left w' ≡ left w - 1)
        × (levels.rx ≤ length (arrived w))
        × (left w ≡ 0 → levels.rx ≡ length (arrived w))
        × (left w ≡ 0 → queue w ≡ [] → arrived w ≡ [] → is_vacant levels ≡ true)
  pub reads :
      (byte : ℕ) (rest : Bytes) (w : W)
      → arrived w ≡ byte ∷ rest
      → (w' : W) × (i2c.read_byte w ≡ (0, byte, w'))
        × (queue w' ≡ queue w)
        × (arrived w' ≡ rest)
        × (left w' ≤ left w)
  -- The clock is read without the bus.
  pub high_apart :
      (w : W)
      → (queue (clint.mtime_high w).1 ≡ queue w)
        × (arrived (clint.mtime_high w).1 ≡ arrived w)
        × (sent (clint.mtime_high w).1 ≡ sent w)
  pub low_apart :
      (w : W)
      → (queue (clint.mtime_low w).1 ≡ queue w)
        × (arrived (clint.mtime_low w).1 ≡ arrived w)
        × (sent (clint.mtime_low w).1 ≡ sent w)

module _ {W : Type 0} {i2c : I2c W} {clint : Clint W} {image : Memory} {patience : ℕ}
    (bus : Eeprom i2c clint image patience) where
  -- Nothing is queued, and so many bytes have arrived and are not read.
  abbrev pub Holds : Bytes → W → Type 0
  Holds bytes w = (bus.queue w ≡ []) × (bus.arrived w ≡ bytes)

  -- The wait for idle FIFOs ends.
  pub wait_vacant :
      (rounds : ℕ) (s : State W)
      → Holds [] s.world
      → bus.left s.world < rounds
      → Yields
          (λ s'. Holds [] s'.world × (bus.sent s'.world ≡ bus.sent s.world) × (s'.mem ≡ s.mem))
          tt
          (wait_levels i2c clint is_vacant rounds s)
  unfolding wait_levels
  wait_vacant zero s empty bound = elim bound [ ]
  wait_vacant (suc rounds) s empty bound =
      let (levels, w', runs, queue, arrived, sent, left, low, all, vacant) = bus.looks s.world in
      let next : State W = record s { world = w' } in
      let still : Holds [] w' = (queue ∙ empty.0, arrived ∙ empty.1) in
      elim (Bool-cases (is_vacant levels)) [
        | inl yes_vacant ↦ rw (runs, yes_vacant) (yields tt next (still, sent, refl))
        | inr busy ↦
            let fewer : bus.left w' < rounds = elim (zero_cases (bus.left s.world)) [
              | inl none_left ↦ absurd (let v = vacant none_left empty.0 empty.1 in cc)
              | inr some_left ↦ omega arith
            ] in
            let rest = wait_vacant rounds next still fewer in
            rw (runs, busy, rest.runs)
              (yields tt rest.final (rest.holds.0, rest.holds.1 ∙ sent, rest.holds.2))
      ]
    where
      zero_cases : (n : ℕ) → (n ≡ 0) ⊎ (0 < n)
      zero_cases zero = inl refl
      zero_cases (suc n) = inr (omega arith)

  -- The wait for bytes ends once all of them have arrived.
  pub wait_arrived :
      (rounds : ℕ) (bytes : Bytes) (s : State W)
      → Holds bytes s.world
      → bus.left s.world < rounds
      → bus.left s.world < patience
      → Yields
          (λ s'. Holds bytes s'.world × (bus.left s'.world < patience) × (s'.mem ≡ s.mem))
          tt
          (wait_levels i2c clint (λ levels. not (ltb levels.rx (length bytes))) rounds s)
  unfolding wait_levels
  wait_arrived zero bytes s there bound soon = elim bound [ ]
  wait_arrived (suc rounds) bytes s there bound soon =
      let (levels, w', runs, queue, arrived, sent, left, low, all, vacant) = bus.looks s.world in
      let next : State W = record s { world = w' } in
      let still : Holds bytes w' = (queue ∙ there.0, arrived ∙ there.1) in
      let n : length (bus.arrived s.world) ≡ length bytes = ap length there.1 in
      elim (Bool-cases (ltb levels.rx (length bytes))) [
        | inl few ↦
            rw (runs, few) (wait_arrived rounds bytes next still (ground arith) (ground arith))
        | inr enough ↦ rw (runs, enough) (yields tt next (still, ground arith, refl))
      ]

  -- The bytes that have arrived are read into memory.
  pub receive_lem :
      (buf : ℕ) (bytes : Bytes) (s : State W)
      → Holds bytes s.world
      → bus.left s.world < patience
      → Yields
          (λ s'.
            Holds [] s'.world
            × (bus.left s'.world < patience)
            × (s'.mem ≡ store_bytes buf bytes s.mem))
          tt
          (receive_bytes i2c clint buf (length bytes) s)
  unfolding receive_bytes store_bytes
  receive_lem buf [] s there soon = yields tt s (there, soon, refl)
  receive_lem buf (byte ∷ bytes) s there soon =
      let (w', runs, queue, arrived, left) = bus.reads byte bytes s.world there.1 in
      rw runs (
        receive_lem (buf + 1) bytes (record { world = w'; mem = store_bytes buf (byte ∷ []) s.mem })
          (queue ∙ there.0, arrived) (omega arith))

  -- The bytes that are to arrive are waited for and read into memory.
  pub fetch_lem :
      (rounds buf : ℕ) (bytes : Bytes) (n : ℕ) (s : State W)
      → length bytes ≡ n
      → Holds bytes s.world
      → bus.left s.world < rounds
      → bus.left s.world < patience
      → Yields
          (λ s'.
            (Holds [] s'.world × (bus.left s'.world < patience))
            × (s'.mem ≡ store_bytes buf bytes s.mem))
          tt
          ((wait_levels i2c clint (λ levels. not (ltb levels.rx n)) rounds
              >> receive_bytes i2c clint buf n)
            s)
  fetch_lem rounds buf bytes n s e there bound soon = rw (← e) (
      bind (λ _. receive_bytes i2c clint buf (length bytes))
        (wait_arrived rounds bytes s there bound soon)
        λ s1 (held, soon1, m1).
          let received = receive_lem buf bytes s1 held soon1 in
          rw received.runs (
            yields tt received.final (
              (received.holds.0, received.holds.1),
              received.holds.2 ∙ ap (store_bytes buf bytes) m1,
            )))
