-- ===== src/Sdcard/Init.antt =====
-- The initialisation of the SD card driver, `spi_sdcard_init` of sw/lib/hal/spi_sdcard.c.
use cheshire_can.Prelude.{
  ℕ, ◌*◌, ◌≤◌, ◌<◌, Bool, true, false, some, ◌++◌, ◌≡◌, ◌∙◌, arith, ◌!=◌, ltb, leb,
}
use cheshire_can.Machine.{State, check_call}
use cheshire_can.Machine.Store.{Bytes, Memory}
use cheshire_can.Machine.Yields.{Yields, yields, bind}
use cheshire_can.Spi.{Dif}
use cheshire_can.Spi.Wire.{Wire, At}
use cheshire_can.Sdcard.{Card, Undefined, config, init_clock, start, init}
use cheshire_can.Sdcard.Activate.{IsWideMask, WakesUp, activate-At, activation_bytes}

-- A controller whose set-up succeeds and moves no bytes.
pub record IsQuiet {W : Type 0} {dif : Dif W} {csid csid_dummy : ℕ}
    (wire : Wire dif csid csid_dummy) (f : W → ℕ × W) : Type 0 where
  pub succeeds : (w : W) → (f w).0 ≡ 0
  pub coming : (w : W) → wire.incoming (f w).1 ≡ wire.incoming w
  pub gone : (w : W) → wire.sent (f w).1 ≡ wire.sent w

pub record Controller {W : Type 0} {dif : Dif W} {csid csid_dummy : ℕ}
    (wire : Wire dif csid csid_dummy) : Type 0 where
  pub inits : IsQuiet wire dif.init
  pub resets : IsQuiet wire (λ w. (0, dif.reset w))
  pub configures :
      (core_freq clock cs : ℕ) → IsQuiet wire (dif.configure_cs (config core_freq clock) cs)
  pub enables : IsQuiet wire (λ w. (0, dif.enable w))
  pub outputs : (on : Bool) → IsQuiet wire (dif.output_set_enabled on)

-- A handle that may be initialised for a core frequency.
pub record IsUsable (num_cs core_freq : ℕ) (card : Card) : Type 0 where
  pub selects : card.csid < num_cs
  pub selects_dummy : card.csid_dummy < num_cs
  pub runs : 0 < card.spi_freq
  pub slow_enough : card.spi_freq ≤ 25000000
  pub derived : card.spi_freq ≤ core_freq

module _ {W : Type 0} {dif : Dif W} (undef : Undefined) (card : Card)
    (wire : Wire dif card.csid card.csid_dummy) where
  quiet_call :
      {f : W → ℕ × W} {i o : Bytes} {m : Memory} {s : State W}
      → IsQuiet wire f
      → At wire i o m s
      → Yields (At wire i o m) tt (check_call f s)
  quiet_call {s = s} quiet at = rw (quiet.succeeds s.world) (
      yields tt _ (record {
        coming = quiet.coming s.world ∙ at.coming;
        gone = quiet.gone s.world ∙ at.gone;
        memory = at.memory;
      }))

  quiet_run :
      {f : W → W} {i o : Bytes} {m : Memory} {s : State W}
      → IsQuiet wire (λ w. (0, f w))
      → At wire i o m s
      → At wire i o m (record s { world = f s.world })
  quiet_run {s = s} quiet at = record {
    coming = quiet.coming s.world ∙ at.coming;
    gone = quiet.gone s.world ∙ at.gone;
    memory = at.memory;
  }

  -- Initialisation of a usable handle, on a controller that works, with a card that wakes up and is
  -- ready when it is asked for the `n`-th time: for any bound of at least `n` rounds it returns zero, has
  -- sent the wake-up sequence and nothing else, has taken the card's whole answer, and leaves the
  -- memory alone.
  pub init-activates :
      (rounds core_freq : ℕ) {n : ℕ} {s : State W} {o more : Bytes} {m : Memory} {wired : Bytes}
      → IsWideMask undef
      → Controller wire
      → IsUsable dif.num_cs core_freq card
      → n ≤ rounds
      → WakesUp n wired
      → At wire (wired ++ more) o m s
      → Yields
          (At wire more (o ++ activation_bytes n) m)
          tt
          (init dif undef rounds (some card) core_freq s)
  unfolding init start
  init-activates rounds core_freq mask works usable bound up at =
      let a : ltb card.csid dif.num_cs ≡ true = let h = usable.selects in ground arith in
      let b : ltb card.csid_dummy dif.num_cs ≡ true =
        let h = usable.selects_dummy in ground arith in
      let c : (card.spi_freq != 0) ≡ true = let h = usable.runs in ground arith in
      let d : leb card.spi_freq (25 * 1000 * 1000) ≡ true =
        let h = usable.slow_enough in ground arith in
      let e : leb card.spi_freq core_freq ≡ true = let h = usable.derived in ground arith in
      rw (a, b, c, d, e)
        (bind _ (quiet_call works.inits at) λ s at.
          bind _
            (quiet_call (works.configures core_freq init_clock card.csid)
              (quiet_run works.resets at))
            λ s at.
              bind _ (quiet_call (works.configures core_freq init_clock card.csid_dummy) at) λ s at.
                bind _ (quiet_call (works.outputs true) (quiet_run works.enables at)) λ s at.
                  bind _ (activate-At undef card wire rounds mask bound up at) λ s at.
                    bind _ (quiet_call (works.outputs false) at) λ s at.
                      bind _ (quiet_call (works.configures core_freq card.spi_freq card.csid) at)
                        λ s at.
                          bind _
                            (quiet_call (works.configures core_freq card.spi_freq card.csid_dummy)
                              at)
                            λ s at. quiet_call (works.outputs true) at)
