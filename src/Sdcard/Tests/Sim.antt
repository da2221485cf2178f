-- ===== src/Sdcard/Tests/Sim.antt =====
-- A controller with a card behind it, as two streams of bytes.
use mathlib.Core.List.{append-nil}
use cheshire_can.Prelude.{ℕ, List, [], ◌∷◌, ◌++◌, refl, sym, take, drop}
use cheshire_can.Machine.{State}
use cheshire_can.Machine.Store.{Bytes, Memory}
use cheshire_can.Spi.{Dif, Segment, tx, rx}
use cheshire_can.Spi.Wire.{Wire, At}
use cheshire_can.Sdcard.{Card, Undefined}
use cheshire_can.Sdcard.Init.{Controller}

pub record Streams : Type 0 where
  pub incoming : Bytes
  pub sent : Bytes

abbrev move : List Segment → Streams → ℕ × Bytes × Streams
move (rx n ∷ []) w = (0, take n w.incoming, record w { incoming = drop n w.incoming })
move (tx bytes ∷ []) w = (0, [], record w { sent = w.sent ++ bytes })
move _ w = (0, [], w)

abbrev pub sim : Dif Streams
sim = record {
  num_cs = 2;
  rx_depth = 64;
  init = λ w. (0, w);
  reset = λ w. w;
  configure_cs = λ config cs w. (0, w);
  enable = λ w. w;
  output_set_enabled = λ on w. (0, w);
  transaction = λ cs segments w. move segments w;
  transaction_csaat = λ cs segments w. move segments w;
}

abbrev pub card : Card
card = record { spi_freq = 24000000; csid = 0; csid_dummy = 1 }

abbrev pub undef : Undefined
undef = record { wide_mask = λ n. 255; stale = 7 }

abbrev pub wire : Wire sim 0 1
wire = record {
  incoming = λ w. w.incoming;
  sent = λ w. w.sent;
  rx_runs = λ w n fits. (record w { incoming = drop n w.incoming }, refl, refl, refl);
  tx_runs = λ w bytes. (record w { sent = w.sent ++ bytes }, refl, refl, refl);
  dummy_runs = λ w cycles. (w, refl, refl, refl);
  free_runs = λ w. (w, refl, refl, refl);
}

abbrev pub controller : Controller wire
controller = record {
  inits = record { succeeds = λ w. refl; coming = λ w. refl; gone = λ w. refl };
  resets = record { succeeds = λ w. refl; coming = λ w. refl; gone = λ w. refl };
  configures =
      λ core_freq clock cs. record { succeeds = λ w. refl; coming = λ w. refl; gone = λ w. refl };
  enables = record { succeeds = λ w. refl; coming = λ w. refl; gone = λ w. refl };
  outputs = λ on. record { succeeds = λ w. refl; coming = λ w. refl; gone = λ w. refl };
}

-- A state in which the card is about to send these bytes.
abbrev pub before : Bytes → Memory → State Streams
before bytes mem = record { world = record { incoming = bytes; sent = [] }; mem = mem }

pub before-At : (bytes : Bytes) (mem : Memory) → At wire (bytes ++ []) [] mem (before bytes mem)
before-At bytes mem = record { coming = sym (append-nil bytes); gone = refl; memory = refl }
