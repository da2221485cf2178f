-- ===== src/Sdcard/Transfer.antt =====
-- The transfers of the driver over a wire: what each receives, sends and leaves.
use cheshire_can.Prelude.{
  ℕ, zero, suc, ◌+◌, ◌*◌, ◌≤◌, ◌<◌, Bool, true, false, none, some, [], ◌∷◌, ◌++◌, ◌≡◌, refl, ap,
  ◌∙◌, arith, suc-eq-zero, All, length, take, length-append, take-append, drop-append,
}
use cheshire_can.Machine.{State}
use cheshire_can.Machine.Store.{Bytes, Memory}
use cheshire_can.Machine.Yields.{Yields, Fails, yields, fails, bind, bind-Fails}
use cheshire_can.Spi.{Dif}
use cheshire_can.Spi.Wire.{Wire, At}
use cheshire_can.Sdcard.{Card, xfer_csaat, csfree, receive_byte, poll}

module _ {W : Type 0} {dif : Dif W} (card : Card) (wire : Wire dif card.csid card.csid_dummy) where
  -- Receiving takes the next bytes of the stream.
  pub rx-At :
      {s : State W} {rest o : Bytes} {m : Memory} (xs : Bytes) (n : ℕ)
      → At wire (xs ++ rest) o m s
      → length xs ≡ n
      → Yields (At wire rest o m) xs (xfer_csaat dif card true none n s)
  unfolding xfer_csaat
  rx-At {s} {rest} xs n at e =
      let fits : n ≤ length (wire.incoming s.world) =
        rw at.coming (omega (arith, length-append xs rest)) in
      let (w, runs, coming, gone) = wire.rx_runs s.world n fits in
      record {
        final = record s { world = w };
        runs = rw runs (rw at.coming (rw (take-append n xs rest e)));
        holds = record {
          coming = coming ∙ rw at.coming (drop-append n xs rest e);
          gone = gone ∙ at.gone;
          memory = at.memory;
        };
      }

  pub tx-At :
      {s : State W} {i o : Bytes} {m : Memory} (bytes : Bytes) (n : ℕ)
      → At wire i o m s
      → Yields (At wire i (o ++ take n bytes) m) [] (xfer_csaat dif card false (some bytes) n s)
  unfolding xfer_csaat
  tx-At {s} bytes n at =
      let (w, runs, coming, gone) = wire.tx_runs s.world (take n bytes) in
      record {
        final = record s { world = w };
        runs = rw runs;
        holds = record {
          coming = coming ∙ at.coming;
          gone = gone ∙ ap (λ t. t ++ take n bytes) at.gone;
          memory = at.memory;
        };
      }

  pub dummy-At :
      {s : State W} {i o : Bytes} {m : Memory} (n : ℕ)
      → At wire i o m s
      → Yields (At wire i o m) [] (xfer_csaat dif card false none n s)
  unfolding xfer_csaat
  dummy-At {s} n at =
      let (w, runs, coming, gone) = wire.dummy_runs s.world (8 * n) in
      record {
        final = record s { world = w };
        runs = rw runs;
        holds = record { coming = coming ∙ at.coming; gone = gone ∙ at.gone; memory = at.memory };
      }

  pub csfree-At :
      {s : State W} {i o : Bytes} {m : Memory}
      → At wire i o m s
      → Yields (At wire i o m) tt (csfree dif card s)
  unfolding csfree
  csfree-At {s} at =
      let (w, runs, coming, gone) = wire.free_runs s.world in
      record {
        final = record s { world = w };
        runs = rw runs;
        holds = record { coming = coming ∙ at.coming; gone = gone ∙ at.gone; memory = at.memory };
      }

  pub byte-At :
      {s : State W} {rest o : Bytes} {m : Memory} (x : ℕ)
      → At wire (x ∷ rest) o m s
      → Yields (At wire rest o m) x (receive_byte dif card s)
  unfolding receive_byte
  byte-At x at = bind _ (rx-At (x ∷ []) 1 at refl) (λ s h. yields x s h)

  -- A polling loop skips the bytes that ask for another round, and returns the first that does not,
  -- if it comes before the last round.
  pub poll-At :
      (again : ℕ → Bool) (code timeout : ℕ) {s : State W} {rest o : Bytes} {m : Memory}
      (skipped : Bytes) (x : ℕ)
      → All (λ y. again y ≡ true) skipped
      → again x ≡ false
      → length skipped + 1 < timeout
      → At wire (skipped ++ x ∷ rest) o m s
      → Yields (At wire rest o m) x (poll dif card again code timeout s)
  unfolding poll
  poll-At again code zero skipped x ha hx ht at = absurd (omega arith)
  poll-At again code (suc zero) skipped x ha hx ht at = absurd (omega arith)
  poll-At again code (suc (suc t)) [] x ha hx ht at =
      bind _ (byte-At x at) (λ s h. rw (suc-eq-zero t, hx) (yields x s h))
  poll-At again code (suc (suc t)) (y ∷ skipped) x ha hx ht at = bind _ (byte-At y at) (λ s h.
      rw (suc-eq-zero t, ha.0) (poll-At again code (suc t) skipped x ha.1 hx (omega arith) h))

  -- It fails once its rounds are used up, whatever the last byte is.
  pub poll-Fails :
      (again : ℕ → Bool) (code timeout : ℕ) {s : State W} {o : Bytes} {m : Memory} (skipped : Bytes)
      (x : ℕ) (rest : Bytes)
      → All (λ y. again y ≡ true) skipped
      → length skipped + 1 ≡ timeout
      → At wire (skipped ++ x ∷ rest) o m s
      → Fails code (poll dif card again code timeout s)
  unfolding poll
  poll-Fails again code zero skipped x rest ha ht at = absurd (omega arith)
  poll-Fails again code (suc zero) [] x rest ha ht at =
      bind-Fails _ (byte-At x at) (λ s h. fails code s)
  poll-Fails again code (suc (suc t)) [] x rest ha ht at = absurd (omega arith)
  poll-Fails again code (suc zero) (y ∷ skipped) x rest ha ht at = absurd (omega arith)
  poll-Fails again code (suc (suc t)) (y ∷ skipped) x rest ha ht at =
      bind-Fails _ (byte-At y at) (λ s h.
        rw (suc-eq-zero t, ha.0)
          (poll-Fails again code (suc t) skipped x rest ha.1 (omega arith) h))
