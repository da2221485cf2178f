-- ===== src/Flash/Read.antt =====
-- Reads of the flash chip, and that they serve to boot from.
use cheshire_can.Prelude.{
  ℕ, zero, suc, ◌+◌, ◌-◌, ◌*◌, ◌^◌, ◌<◌, true, ◌≡◌, refl, ap, ◌∙◌, inl, inr, arith, ltb, Bool-cases,
}
use cheshire_can.Word.{u32, u64, min_c}
use cheshire_can.Machine.{State}
use cheshire_can.Machine.Store.{Memory, load_bytes, store_bytes}
use cheshire_can.Machine.Chunks.{copied_chunk, load_bytes-agrees, loaded_back}
use cheshire_can.Machine.Yields.{Yields, yields, bind}
use cheshire_can.Spi.{Dif}
use cheshire_can.Gpt.Find.{Reader}
use cheshire_can.Flash.{Flash, single_read_chunk, single_read_loop, single_read}
use cheshire_can.Flash.Link.{Link}

module _ {W : Type 0} {dif : Dif W} (flash : Flash) {chip : ℕ → ℕ} {patience : ℕ}
    (link : Link dif flash.csid chip patience) where
  chunk_lem :
      (buf a n : ℕ) (s : State W)
      → Yields
          (λ s'. s'.mem ≡ store_bytes buf (load_bytes a n chip) s.mem)
          tt
          (single_read_chunk dif flash buf (u64 a) n s)
  unfolding single_read_chunk
  chunk_lem buf a n s =
      let (w', runs) = link.read_runs s.world (u32 (u64 a)) n in
      let same : load_bytes (u32 (u64 a)) n chip ≡ load_bytes a n chip =
        load_bytes-agrees (u32 (u64 a)) a n chip (λ i.
          ap (λ p. chip (p + i)) {x = u32 (u64 a)} {y = u32 a} (omega arith) ∙ link.wraps a i) in
      rw (runs, same) (yields tt _ refl)

  loop_lem :
      (rounds buf a len offs : ℕ) (s : State W) {m : Memory}
      → 0 < dif.rx_depth
      → len + 4 * dif.rx_depth < 2 ^ 64
      → len - offs < rounds
      → s.mem ≡ m
      → Yields
          (λ (s' : State W).
            s'.mem ≡ store_bytes (buf + offs) (load_bytes (a + offs) (len - offs) chip) m)
          tt
          (single_read_loop dif flash rounds buf a len offs s)
  unfolding single_read_loop load_bytes store_bytes
  loop_lem zero buf a len offs s depth fits fuel e = elim fuel [ ]
  loop_lem (suc rounds) buf a len offs s {m} depth fits fuel e = elim (Bool-cases (ltb offs len)) [
    | inr done ↦
        let none_left : len - offs ≡ 0 = ground arith in rw (done, none_left) (yields tt s e)
    | inl more ↦
        let step : ℕ = 4 * dif.rx_depth in
        let n : ℕ = min_c step (len - offs) in
        let next : u64 (offs + step) ≡ offs + step = ground arith in
        let e1 : buf + (offs + step) ≡ buf + offs + step = omega arith in
        let e2 : a + (offs + step) ≡ a + offs + step = omega arith in
        let e3 : len - (offs + step) ≡ len - offs - step = omega arith in
        let whole : store_bytes (buf + (offs + step))
              (load_bytes (a + (offs + step)) (len - (offs + step)) chip)
              (store_bytes (buf + offs) (load_bytes (a + offs) n chip) m)
            ≡ store_bytes (buf + offs) (load_bytes (a + offs) (len - offs) chip) m =
          rw (e1, e2, e3) (copied_chunk (buf + offs) (a + offs) step (len - offs) chip m) in
        rw (more, next, ← whole)
          (bind _ (chunk_lem (buf + offs) (a + offs) n s) λ s' h.
            loop_lem rounds buf a len (offs + step) s' depth fits (ground arith)
              (h ∙ ap (store_bytes (buf + offs) (load_bytes (a + offs) n chip)) e))
  ]

  -- A read at a speed that the command allows, of less than 2^64 bytes less a FIFO: it returns zero, and
  -- the memory is as before but for the chip's bytes at the buffer.
  pub single_read-delivers :
      (buf a len : ℕ) (s : State W)
      → 0 < dif.rx_depth
      → flash.spi_freq < 50000000
      → len + 4 * dif.rx_depth < 2 ^ 64
      → Yields
          (λ s'. s'.mem ≡ store_bytes buf (load_bytes a len chip) s.mem)
          tt
          (single_read dif flash buf a len s)
  unfolding single_read
  single_read-delivers buf a len s depth slow fits =
      let allowed : ltb flash.spi_freq (50 * 1000 * 1000) ≡ true = ground arith in
      let y = loop_lem (len + 1) buf a len 0 s depth fits (omega arith) refl in
      let start : store_bytes (buf + 0) (load_bytes (a + 0) (len - 0) chip) s.mem
          ≡ store_bytes buf (load_bytes a len chip) s.mem =
        let b0 : buf + 0 ≡ buf = omega arith in
        let a0 : a + 0 ≡ a = omega arith in
        let l0 : len - 0 ≡ len = omega arith in rw (b0, a0, l0) refl in
      rw allowed (record { final = y.final; runs = y.runs; holds = y.holds ∙ start })

  -- The chip serves to boot from.
  abbrev pub flash_reader :
      0 < dif.rx_depth
      → flash.spi_freq < 50000000
      → 4 * dif.rx_depth + 16 < 2 ^ 63
      → Reader (single_read dif flash) chip
  flash_reader depth slow fits = record {
    IsReady = λ s. Unit;
    limit = 2 ^ 63;
    fields_fit = omega arith;
    delivers = λ p a n s small ready.
        let y = single_read-delivers p a n s depth slow (omega arith) in
        record {
          final = y.final;
          runs = y.runs;
          holds = (tt, ap (load_bytes p n) y.holds ∙ loaded_back p a n chip s.mem);
        };
  }
