-- ===== src/Programs/Copies.antt =====
-- The programs sw/tests/dma_*.spm.c pass where the DMA engine works.
use cheshire_can.Prelude.{
  ℕ, zero, suc, ◌+◌, ◌-◌, ◌^◌, ◌≤◌, ◌≡◌, refl, sym, ap, ◌∙◌, inl, arith, true, [], ◌∷◌, bit_and,
  ◌==◌, ◌!=◌, get_or, drop, ==_iff,
}
use cheshire_can.Word.{le_value}
use cheshire_can.Machine.{State, ok, ◌>>=◌, ◌>>◌, store, return_int}
use cheshire_can.Machine.Store.{
  Memory, load_bytes, store_bytes, copy_bytes, load_bytes-store_bytes_apart,
}
use cheshire_can.Machine.Yields.{Yields, yields}
use cheshire_can.Dma.{dma_blk_memcpy}
use cheshire_can.Dma.Copy.{Engine, dma_blk_memcpy-copies}
use cheshire_can.Programs.{
  Bench, uncached, dma_bit, serial_link_bit, dma_text, dma_1d_gold, copy_loop, count_errors,
  chs_hw_feature_present, dma_1d_main, dma_slink_main,
}
use cheshire_can.Programs.Texts.{
  Apart, ended, copied_text, kept_gold, initialised, filled_text, filled_gold,
}

module _ {W : Type 0} where
  pub copy_loop_lem :
      (dst src n : ℕ) (s : State W) (m : Memory)
      → s.mem ≡ m
      → Apart src n dst n
      → Yields (λ s'. s'.mem ≡ copy_bytes dst src n m) tt (copy_loop dst src n s)
  unfolding copy_loop copy_bytes load_bytes store_bytes
  copy_loop_lem dst src zero s m e apart = yields tt s e
  copy_loop_lem dst src (suc n) s m e apart =
      let m1 : Memory = store_bytes dst (m src ∷ []) m in
      let first : s.mem src ≡ m src = ap (λ (f : Memory). f src) e in
      let rest : load_bytes (src + 1) n m1 ≡ load_bytes (src + 1) n m =
        load_bytes-store_bytes_apart (src + 1) n dst (m src ∷ []) m (ground arith) in
      let y =
        copy_loop_lem (dst + 1) (src + 1) n
          (record s { mem = store_bytes dst (s.mem src ∷ []) s.mem }) m1 (rw (first, e) refl)
          (ground arith) in
      rw y.runs (yields tt y.final (y.holds ∙ ap (λ xs. store_bytes (dst + 1) xs m1) rest))

  pub count_errors_lem :
      (a b n errors : ℕ) (s : State W) (m : Memory)
      → s.mem ≡ m
      → load_bytes a n m ≡ load_bytes b n m
      → Yields (λ s'. s'.mem ≡ m) (errors - n) (count_errors a b n errors s)
  unfolding count_errors load_bytes
  count_errors_lem a b zero errors s m e same =
      let none_left : errors - 0 ≡ errors = omega arith in rw none_left (yields errors s e)
  count_errors_lem a b (suc n) errors s m e same =
      let first : m a ≡ m b = ap (λ t. get_or t 0 0) same in
      let equal : (s.mem a == s.mem b) ≡ true =
        (==_iff (s.mem a) (s.mem b)).1 (rw (e, first) refl) in
      let one : errors - 1 - n ≡ errors - suc n = omega arith in
      rw (equal, ← one) (count_errors_lem (a + 1) (b + 1) n (errors - 1) s m e (ap (drop 1) same))

abbrev pub HasFeature : {W : Type 0} → Bench W → ℕ → State W → Type 0
HasFeature bench bit s =
    (bit_and (le_value (load_bytes (bench.board.base_regs + 0x50) 4 s.mem)) (2 ^ bit) != 0) ≡ true

module _ {W : Type 0} (bench : Bench W) {patience : ℕ} (engine : Engine bench.dma patience)
    (enough : patience ≤ bench.board.rounds) where
  -- The programs from the end of the destination on.
  check_lem :
      (u d : ℕ) (s : State W) (m : Memory)
      → s.mem ≡ m
      → load_bytes u 19 m ≡ dma_text
      → load_bytes bench.gold 20 m ≡ dma_1d_gold
      → Apart d 20 u 19
      → Apart d 20 bench.gold 20
      → (t : State W) × ((do
        store (d + 18) (0x21 ∷ [])
        store (d + 19) (0 ∷ [])
        dma_blk_memcpy bench.dma bench.board.rounds d u 18 0
        errors ← count_errors d bench.gold 20 20
        return_int errors)
            s
          ≡ ok tt t)
  check_lem u d s m e text gold apart_u apart_g =
      let ready : State W = record s {
        mem = store_bytes (d + 19) (0 ∷ []) (store_bytes (d + 18) (0x21 ∷ []) s.mem);
      } in
      let copy =
        dma_blk_memcpy-copies engine bench.board.rounds d u 18 0 ready enough (omega arith) in
      let after : Memory = copy_bytes d u 18 (ended u d bench.gold m text apart_u) in
      let same : copy.final.mem ≡ after = copy.holds ∙ rw e refl in
      let count = count_errors_lem d bench.gold 20 20 copy.final after same (
        copied_text u d bench.gold m text apart_u
        ∙ sym (kept_gold u d bench.gold m text apart_u gold apart_g)) in
      rw (copy.runs, count.runs) (count.final, refl)

  -- With a DMA engine that finishes in time, and locals that do not overlap, neither with one another nor
  -- with the uncached mapping: the test of a copy in one dimension passes.
  pub dma_1d_main-passes :
      (s : State W)
      → let u = bench.src_cached + uncached in
        let d = bench.dst_cached + uncached in
        HasFeature bench dma_bit s
        → Apart bench.src_cached 19 bench.gold 20
        → Apart u 19 bench.gold 20
        → Apart d 20 u 19
        → Apart d 20 bench.gold 20
        → (t : State W) × (dma_1d_main bench s ≡ ok tt t)
  unfolding dma_1d_main chs_hw_feature_present
  dma_1d_main-passes s has apart_g apart_ug apart_du apart_dg =
      let u : ℕ = bench.src_cached + uncached in
      let d : ℕ = bench.dst_cached + uncached in
      let m2 : Memory =
        initialised bench.src_cached u bench.gold dma_1d_gold s.mem apart_u apart_g in
      let fill = copy_loop_lem u bench.src_cached 19 (record s { mem = m2 }) m2 refl apart_u in
      rw (has, fill.runs)
        (check_lem u d fill.final _ fill.holds
          (filled_text bench.src_cached u bench.gold dma_1d_gold s.mem apart_u apart_g)
          (filled_gold bench.src_cached u bench.gold dma_1d_gold s.mem apart_u apart_g apart_ug)
          apart_du apart_dg)
    where
      apart_u : Apart bench.src_cached 19 (bench.src_cached + uncached) 19
      apart_u = inl (omega arith)

  -- With a DMA engine that finishes in time, a serial link whose far side is memory of its own, and locals
  -- and copies that do not overlap: the test of a copy over the serial link passes.
  pub dma_slink_main-passes :
      (s : State W)
      → let d = bench.dst_cached + uncached in
        let rem = bench.dst_cached + uncached + 0x100000000 in
        HasFeature bench dma_bit s
        → HasFeature bench serial_link_bit s
        → Apart bench.src_cached 19 bench.gold 20
        → Apart bench.src_cached 19 rem 19
        → Apart rem 19 bench.gold 20
        → Apart d 20 bench.gold 20
        → (t : State W) × (dma_slink_main bench s ≡ ok tt t)
  unfolding dma_slink_main chs_hw_feature_present
  dma_slink_main-passes s has link apart_g apart_u apart_ug apart_dg =
      let d : ℕ = bench.dst_cached + uncached in
      let u : ℕ = d + 0x100000000 in
      let m2 : Memory =
        initialised bench.src_cached u bench.gold dma_1d_gold s.mem apart_u apart_g in
      let fill = copy_loop_lem u bench.src_cached 19 (record s { mem = m2 }) m2 refl apart_u in
      rw (has, link, fill.runs)
        (check_lem u d fill.final _ fill.holds
          (filled_text bench.src_cached u bench.gold dma_1d_gold s.mem apart_u apart_g)
          (filled_gold bench.src_cached u bench.gold dma_1d_gold s.mem apart_u apart_g apart_ug)
          (inl (omega arith)) apart_dg)
