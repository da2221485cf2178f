-- ===== src/Uart/Line.antt =====
-- What the code relies on of the serial device: a stream to receive, a log of what was sent, and flags
-- that come up within a bounded number of looks at them.
use cheshire_can.Prelude.{
  ℕ, zero, suc, ◌-◌, ◌≤◌, ◌<◌, Bool, true, false, [], ◌∷◌, ◌++◌, ◌≡◌, ap, ◌∙◌, arith, inl, inr,
  bit_and, ◌!=◌, ◌==◌, ◌&&◌, Bool-cases,
}
use cheshire_can.Word.{u8}
use cheshire_can.Machine.{State}
use cheshire_can.Machine.Store.{Bytes, Memory}
use cheshire_can.Machine.Yields.{Yields, yields, bind}
use cheshire_can.Uart.{Bus, spin, uart_read_ready, uart_write_ready, uart_write, uart_read}

abbrev pub is_some_left : Bytes → Bool
is_some_left [] = false
is_some_left (x ∷ bytes) = true

pub record Line {W : Type 0} (bus : Bus W) (patience : ℕ) : Type 0 where
  pub incoming : W → Bytes
  pub sent : W → Bytes
  -- How many more looks at the status find the device busy.
  pub busy : W → ℕ
  pub always : (w : W) → busy w < patience
  -- The data-ready flag stands for a byte to receive, the other for room to send one.
  pub status_runs :
      (w : W)
      → (status : ℕ) × (w' : W) × (bus.read8 20 w ≡ (status, w'))
        × ((bit_and status 1 != 0) ≡ ((busy w == 0) && is_some_left (incoming w)))
        × ((bit_and status 32 != 0) ≡ (busy w == 0))
        × (incoming w' ≡ incoming w)
        × (sent w' ≡ sent w)
        × (busy w' ≡ busy w - 1)
  pub receive_runs :
      (w : W) (x : ℕ) (rest : Bytes)
      → incoming w ≡ x ∷ rest
      → (w' : W) × (bus.read8 0 w ≡ (x, w')) × (incoming w' ≡ rest) × (sent w' ≡ sent w)
  pub send_runs :
      (w : W) (x : ℕ)
      → (incoming (bus.write8 0 x w) ≡ incoming w) × (sent (bus.write8 0 x w) ≡ sent w ++ x ∷ [])

-- Where a run stands: what is still to come, what was sent, and the memory.
pub record On {W : Type 0} {bus : Bus W} {patience : ℕ} (line : Line bus patience) (i o : Bytes)
    (m : Memory) (s : State W) : Type 0 where
  pub coming : line.incoming s.world ≡ i
  pub gone : line.sent s.world ≡ o
  pub memory : s.mem ≡ m

module _ {W : Type 0} {bus : Bus W} {patience : ℕ} (line : Line bus patience) where
  pub On-incoming :
      {i j o : Bytes} {m : Memory} {s : State W} → i ≡ j → On line i o m s → On line j o m s
  On-incoming e on = record { coming = on.coming ∙ e; gone = on.gone; memory = on.memory }

  pub On-sent :
      {i o p : Bytes} {m : Memory} {s : State W} → o ≡ p → On line i o m s → On line i p m s
  On-sent e on = record { coming = on.coming; gone = on.gone ∙ e; memory = on.memory }

  readable_lem :
      (rounds : ℕ) {i o : Bytes} {m : Memory} {x : ℕ} {s : State W}
      → line.busy s.world < rounds
      → On line (x ∷ i) o m s
      → Yields (On line (x ∷ i) o m) tt (spin bus (uart_read_ready bus) rounds s)
  unfolding spin uart_read_ready
  readable_lem zero bound on = elim bound [ ]
  readable_lem (suc rounds) {i} {o} {m} {x} {s} bound on =
      let (status, w', runs, bit, room, coming, gone, less) = line.status_runs s.world in
      let after : On line (x ∷ i) o m (record s { world = w' }) = record {
        coming = coming ∙ on.coming;
        gone = gone ∙ on.gone;
        memory = on.memory;
      } in
      elim (Bool-cases (line.busy s.world == 0)) [
        | inl idle ↦ rw (runs, bit, idle, on.coming) (yields tt _ after)
        | inr still ↦ rw (runs, bit, still) (readable_lem rounds (ground arith) after)
      ]

  writable_lem :
      (rounds : ℕ) {i o : Bytes} {m : Memory} {s : State W}
      → line.busy s.world < rounds
      → On line i o m s
      → Yields (On line i o m) tt (spin bus (uart_write_ready bus) rounds s)
  unfolding spin uart_write_ready
  writable_lem zero bound on = elim bound [ ]
  writable_lem (suc rounds) {i} {o} {m} {s} bound on =
      let (status, w', runs, bit, room, coming, gone, less) = line.status_runs s.world in
      let after : On line i o m (record s { world = w' }) = record {
        coming = coming ∙ on.coming;
        gone = gone ∙ on.gone;
        memory = on.memory;
      } in
      elim (Bool-cases (line.busy s.world == 0)) [
        | inl idle ↦ rw (runs, room, idle) (yields tt _ after)
        | inr still ↦ rw (runs, room, still) (writable_lem rounds (ground arith) after)
      ]

  pub uart_read_lem :
      (rounds : ℕ) {i o : Bytes} {m : Memory} {s : State W} (x : ℕ)
      → patience ≤ rounds
      → On line (x ∷ i) o m s
      → Yields (On line i o m) x (uart_read bus rounds s)
  unfolding uart_read
  uart_read_lem rounds {i} {s = s} x enough on =
      bind _ (readable_lem rounds (let b = line.always s.world in omega arith) on) λ s on.
        (let (w', runs, coming, gone) = line.receive_runs s.world x i on.coming in
          rw runs
            (yields x _ (record { coming = coming; gone = gone ∙ on.gone; memory = on.memory })))

  pub uart_write_lem :
      (rounds : ℕ) {i o : Bytes} {m : Memory} {s : State W} (x : ℕ)
      → patience ≤ rounds
      → On line i o m s
      → Yields (On line i (o ++ u8 x ∷ []) m) tt (uart_write bus rounds x s)
  unfolding uart_write
  uart_write_lem rounds {s = s} x enough on =
      bind _ (writable_lem rounds (let b = line.always s.world in omega arith) on) λ s on.
        (let (coming, gone) = line.send_runs s.world (u8 x) in
          yields tt _ (record {
            coming = coming ∙ on.coming;
            gone = gone ∙ ap (λ l. l ++ u8 x ∷ []) on.gone;
            memory = on.memory;
          }))
