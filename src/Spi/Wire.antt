-- ===== src/Spi/Wire.antt =====
-- What the drivers rely on: transactions on a selected device succeed and move bytes. The bytes that
-- the device is going to send are a stream, and the bytes that it was sent are a log.
use cheshire_can.Prelude.{ℕ, ◌≤◌, [], ◌∷◌, ◌++◌, ◌≡◌, ap, ◌∙◌, length, take, drop}
use cheshire_can.Machine.{State}
use cheshire_can.Machine.Store.{Bytes, Memory, store_bytes}
use cheshire_can.Spi.{tx, rx, dummy, Dif}

pub record Wire {W : Type 0} (dif : Dif W) (csid csid_dummy : ℕ) : Type 0 where
  pub incoming : W → Bytes
  pub sent : W → Bytes
  pub rx_runs :
      (w : W) (n : ℕ)
      → n ≤ length (incoming w)
      → (w' : W) × (dif.transaction_csaat csid (rx n ∷ []) w ≡ (0, take n (incoming w), w'))
        × (incoming w' ≡ drop n (incoming w))
        × (sent w' ≡ sent w)
  pub tx_runs :
      (w : W) (bytes : Bytes)
      → (w' : W) × (dif.transaction_csaat csid (tx bytes ∷ []) w ≡ (0, [], w'))
        × (incoming w' ≡ incoming w)
        × (sent w' ≡ sent w ++ bytes)
  pub dummy_runs :
      (w : W) (cycles : ℕ)
      → (w' : W) × (dif.transaction_csaat csid (dummy cycles ∷ []) w ≡ (0, [], w'))
        × (incoming w' ≡ incoming w)
        × (sent w' ≡ sent w)
  -- Eight cycles on the dummy chip select release the device.
  pub free_runs :
      (w : W)
      → (w' : W) × (dif.transaction csid_dummy (dummy 8 ∷ []) w ≡ (0, [], w'))
        × (incoming w' ≡ incoming w)
        × (sent w' ≡ sent w)

-- Where a run stands: what is still to come, what was sent, and the memory.
pub record At {W : Type 0} {dif : Dif W} {csid csid_dummy : ℕ} (wire : Wire dif csid csid_dummy)
    (i o : Bytes) (m : Memory) (s : State W) : Type 0 where
  pub coming : wire.incoming s.world ≡ i
  pub gone : wire.sent s.world ≡ o
  pub memory : s.mem ≡ m

module _ {W : Type 0} {dif : Dif W} {csid csid_dummy : ℕ} (wire : Wire dif csid csid_dummy) where
  pub At-incoming :
      {i j o : Bytes} {m : Memory} {s : State W} → i ≡ j → At wire i o m s → At wire j o m s
  At-incoming e at = record { coming = at.coming ∙ e; gone = at.gone; memory = at.memory }

  pub At-sent :
      {i o p : Bytes} {m : Memory} {s : State W} → o ≡ p → At wire i o m s → At wire i p m s
  At-sent e at = record { coming = at.coming; gone = at.gone ∙ e; memory = at.memory }

  pub At-memory :
      {i o : Bytes} {m n : Memory} {s : State W} → m ≡ n → At wire i o m s → At wire i o n s
  At-memory e at = record { coming = at.coming; gone = at.gone; memory = at.memory ∙ e }

  -- Loads look at the memory, stores change it and nothing else.
  pub At-stored :
      {i o : Bytes} {m : Memory} {s : State W} (p : ℕ) (bytes : Bytes)
      → At wire i o m s
      → At wire i o (store_bytes p bytes m) (record s { mem = store_bytes p bytes s.mem })
  At-stored p bytes at = record {
    coming = at.coming;
    gone = at.gone;
    memory = ap (store_bytes p bytes) at.memory;
  }
