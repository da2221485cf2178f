-- ===== src/Gpt/Sim.antt =====
-- A simulated disk with a table of two entries, and a read function for it.
use cheshire_can.Prelude.{ℕ, Option, some, [], ◌∷◌, arith}
use cheshire_can.Word.{le_bytes}
use cheshire_can.Machine.{Cmd, ok}
use cheshire_can.Machine.Store.{Memory, load_bytes, store_bytes}
use cheshire_can.Machine.Chunks.{loaded_back}
use cheshire_can.Machine.Yields.{yields}
use cheshire_can.Gpt.{Frame, Guid}
use cheshire_can.Gpt.Find.{Reader}

abbrev pub empty : Memory
empty p = 0

-- The signature and the fields of the header, then the two entries, behind block 2.
abbrev pub disk : Memory
disk = store_bytes 0x200 (le_bytes 8 0x5452415020494645) (
    store_bytes 0x248 (2 ∷ 0 ∷ 0 ∷ 0 ∷ 0 ∷ 0 ∷ 0 ∷ 0 ∷ 2 ∷ 0 ∷ 0 ∷ 0 ∷ 128 ∷ 0 ∷ 0 ∷ 0 ∷ []) (
      store_bytes 0x420 (le_bytes 8 40) (
        store_bytes 0x428 (le_bytes 8 49) (
          store_bytes 0x480 (7 ∷ 0 ∷ 0 ∷ 0 ∷ 0 ∷ 0 ∷ 0 ∷ 0 ∷ 9 ∷ [])
            (store_bytes 0x4a0 (le_bytes 8 64) (store_bytes 0x4a8 (le_bytes 8 71) empty))))))

abbrev pub wanted : Option Guid
wanted = some (record { low = 7; high = 9 })

abbrev pub frame : Frame
frame = record { sig = 0x100; hf = 0x110; dim = 0x120; guid = 0x130 }

abbrev pub deliver : ℕ → ℕ → ℕ → Cmd (Unit {0}) (Unit {0})
deliver p addr n s = ok tt (record s { mem = store_bytes p (load_bytes addr n disk) s.mem })

abbrev pub reader : Reader deliver disk
reader = record {
  IsReady = λ s. Unit;
  limit = 0x100000;
  fields_fit = omega arith;
  delivers = λ p addr n s small h. yields tt _ (tt, loaded_back p addr n disk s.mem);
}
