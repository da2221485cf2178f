-- ===== src/Boot/Sim.antt =====
-- A board whose devices do nothing, for simulated ones to take their place.
use cheshire_can.Prelude.{[]}
use cheshire_can.Machine.{pure}
use cheshire_can.Gpt.Sim.{frame}
use cheshire_can.Boot.{Board}

abbrev pub idle_board : {W : Type 0} → Board W
idle_board = record {
  spi = record {
    num_cs = 2;
    rx_depth = 64;
    init = λ w. (0, w);
    reset = λ w. w;
    configure_cs = λ config cs w. (0, w);
    enable = λ w. w;
    output_set_enabled = λ on w. (0, w);
    transaction = λ cs segments w. (0, [], w);
    transaction_csaat = λ cs segments w. (0, [], w);
  };
  i2c = record {
    fifo_depth = 64;
    init = λ w. (0, w);
    set_enabled = λ on w. (0, w);
    reset_acq_fifo = λ w. (0, w);
    reset_fmt_fifo = λ w. (0, w);
    reset_rx_fifo = λ w. (0, w);
    reset_tx_fifo = λ w. (0, w);
    compute_timing = λ timing w. (0, w);
    configure = λ timing w. (0, w);
    get_fifo_levels = λ w. (0, record { fmt = 0; rx = 0; tx = 0; acq = 0 }, w);
    write_byte = λ byte format quiet w. (0, w);
    read_byte = λ w. (0, 0, w);
  };
  uart = record { read8 = λ offs w. (0, w); write8 = λ offs value w. w };
  clint = record {
    mtime_high = λ w. (0, w);
    mtime_low = λ w. (0, w);
    write32 = λ offs value w. w;
    mcycle = λ w. (0, w);
    wait_for_interrupt = λ w. w;
  };
  undef = record { wide_mask = λ n. 0; stale = 0 };
  base_regs = 0x3000000;
  base_spm = 0x10000000;
  frame = frame;
  swap = 0x1000;
  sdcard_read = 0x2000e50;
  flash_read = 0x2000e80;
  eeprom_read = 0x2000eb0;
  handle = 0x10;
  global_pointer = 0x1800;
  boot_next_stage = λ pc. pure tt;
  invoke = λ pc. pure 0;
  rounds = 100;
}
