-- ===== src/Programs/Rows.antt =====
-- The program sw/tests/dma_2d.spm.c passes where the DMA engine works.
use mathlib.Core.Path.{ap₂}
use cheshire_can.Prelude.{
  ℕ, zero, suc, ◌+◌, ◌*◌, ◌≤◌, ◌≡◌, refl, sym, ap, ◌∙◌, inl, arith, [], ◌∷◌, ◌++◌, length, take,
  drop,
}
use cheshire_can.Machine.{State, ok, ◌>>=◌, ◌>>◌, store, return_int}
use cheshire_can.Machine.Store.{
  Memory, Bytes, load_bytes, store_bytes, copy_bytes, length-load_bytes, load_bytes-add,
  load_bytes-store_bytes, load_bytes-store_bytes_apart,
}
use cheshire_can.Dma.{dma_2d_blk_memcpy}
use cheshire_can.Dma.Copy.{Engine, dma_2d_blk_memcpy-copies, copy_rows}
use cheshire_can.Programs.{
  Bench, uncached, dma_bit, dma_text, dma_2d_gold, count_errors, chs_hw_feature_present,
  dma_2d_main,
}
use cheshire_can.Programs.Texts.{
  Apart, load_window, written_at, initialised, filled_text, filled_gold,
}
use cheshire_can.Programs.Copies.{HasFeature, copy_loop_lem, count_errors_lem}

-- What a row is to hold.
abbrev row : ℕ → Bytes
row k = take 15 (drop k dma_text)

-- A row that does not overlap the text leaves it, and is the text's part from its start on.
row_lem :
    (d u k : ℕ) (m : Memory)
    → load_bytes u 19 m ≡ dma_text
    → k + 15 ≤ 19
    → Apart d 15 u 19
    → (copy_bytes d (u + k) 15 m ≡ store_bytes d (row k) m)
      × (load_bytes u 19 (copy_bytes d (u + k) 15 m) ≡ dma_text)
unfolding copy_bytes
row_lem d u k m text inside apart =
    let part : load_bytes (u + k) 15 m ≡ row k =
      load_window u 19 k 15 m inside ∙ ap (λ t. take 15 (drop k t)) text in
    let n : length (load_bytes (u + k) 15 m) ≡ 15 = length-load_bytes (u + k) 15 m in
    (
      ap (λ xs. store_bytes d xs m) part,
      load_bytes-store_bytes_apart u 19 d (load_bytes (u + k) 15 m) m (ground arith) ∙ text,
    )

-- The rows as writes.
abbrev rows : ℕ → ℕ → ℕ → Memory → Memory
rows zero d k m = m
rows (suc reps) d k m = rows reps (d + 7) (k + 1) (store_bytes d (row k) m)

rows_lem :
    (reps d u k : ℕ) (m : Memory)
    → load_bytes u 19 m ≡ dma_text
    → k + reps ≤ 5
    → Apart d (7 * reps + 8) u 19
    → copy_rows reps d (u + k) 15 7 1 m ≡ rows reps d k m
unfolding copy_rows
rows_lem zero d u k m text inside apart = refl
rows_lem (suc reps) d u k m text inside apart =
    let (written, kept) = row_lem d u k m text (omega arith) (ground arith) in
    let next : u + k + 1 ≡ u + (k + 1) = omega arith in
    rw next (
      rows_lem reps (d + 7) u (k + 1) (copy_bytes d (u + k) 15 m) kept (omega arith) (ground arith)
      ∙ ap (rows reps (d + 7) (k + 1)) written)

-- What the destination holds after the rows: of each but the last what the next one leaves of it.
module _ (d : ℕ) (m : Memory) where
  abbrev m1 : Memory
  m1 = store_bytes d (row 0) m

  abbrev m2 : Memory
  m2 = store_bytes (d + 7) (row 1) m1

  abbrev m3 : Memory
  m3 = store_bytes (d + 7 + 7) (row 2) m2

  abbrev m4 : Memory
  m4 = store_bytes (d + 7 + 7 + 7) (row 3) m3

  start :
      (p k : ℕ) (f : Memory)
      → 7 ≤ length (row k)
      → load_bytes p 7 (store_bytes p (row k) f) ≡ take 7 (row k)
  start p k f long =
      ap (λ q. load_bytes q 7 (store_bytes p (row k) f)) {x = p} {y = p + 0} (omega arith)
      ∙ written_at p 0 7 (row k) f long

  first_row : load_bytes d 7 m4 ≡ take 7 (row 0)
  first_row =
      load_bytes-store_bytes_apart d 7 (d + 7 + 7 + 7) (row 3) m3 (inl (omega arith))
      ∙ load_bytes-store_bytes_apart d 7 (d + 7 + 7) (row 2) m2 (inl (omega arith))
      ∙ load_bytes-store_bytes_apart d 7 (d + 7) (row 1) m1 (inl (omega arith))
      ∙ start d 0 m (omega arith)

  second_row : load_bytes (d + 7) 7 m4 ≡ take 7 (row 1)
  second_row =
      load_bytes-store_bytes_apart (d + 7) 7 (d + 7 + 7 + 7) (row 3) m3 (inl (omega arith))
      ∙ load_bytes-store_bytes_apart (d + 7) 7 (d + 7 + 7) (row 2) m2 (inl (omega arith))
      ∙ start (d + 7) 1 m1 (omega arith)

  third_row : load_bytes (d + 7 + 7) 7 m4 ≡ take 7 (row 2)
  third_row =
      load_bytes-store_bytes_apart (d + 7 + 7) 7 (d + 7 + 7 + 7) (row 3) m3 (inl (omega arith))
      ∙ start (d + 7 + 7) 2 m2 (omega arith)

  outside : (p n : ℕ) → Apart d 36 p n → load_bytes p n m4 ≡ load_bytes p n m
  outside p n apart =
      load_bytes-store_bytes_apart p n (d + 7 + 7 + 7) (row 3) m3 (ground arith)
      ∙ load_bytes-store_bytes_apart p n (d + 7 + 7) (row 2) m2 (ground arith)
      ∙ load_bytes-store_bytes_apart p n (d + 7) (row 1) m1 (ground arith)
      ∙ load_bytes-store_bytes_apart p n d (row 0) m (ground arith)

  whole : load_bytes (d + 7 + 7 + 7 + 15) 2 m ≡ 0x21 ∷ 0 ∷ [] → load_bytes d 38 m4 ≡ dma_2d_gold
  whole end =
      load_bytes-add d 7 31 m4
      ∙ ap₂ ◌++◌ first_row (
          load_bytes-add (d + 7) 7 24 m4
          ∙ ap₂ ◌++◌ second_row (
              load_bytes-add (d + 7 + 7) 7 17 m4
              ∙ ap₂ ◌++◌ third_row (
                  load_bytes-add (d + 7 + 7 + 7) 15 2 m4
                  ∙ ap₂ ◌++◌ (load_bytes-store_bytes (d + 7 + 7 + 7) (row 3) m3)
                      (outside (d + 7 + 7 + 7 + 15) 2 (inl (omega arith)) ∙ end))))

-- The end of the destination, which is written before the copy.
module _ (d : ℕ) (m : Memory) where
  abbrev ended : Memory
  ended = store_bytes (d + 37) (0 ∷ []) (store_bytes (d + 36) (0x21 ∷ []) m)

  end_text : load_bytes (d + 7 + 7 + 7 + 15) 2 ended ≡ 0x21 ∷ 0 ∷ []
  unfolding store_bytes
  end_text =
      let at : d + 7 + 7 + 7 + 15 ≡ d + 36 = omega arith in
      let next : d + 37 ≡ d + 36 + 1 = omega arith in
      rw (at, next) (load_bytes-store_bytes (d + 36) (0x21 ∷ 0 ∷ []) m)

  kept : (p n : ℕ) → Apart d 38 p n → load_bytes p n ended ≡ load_bytes p n m
  kept p n apart =
      load_bytes-store_bytes_apart p n (d + 37) (0 ∷ []) _ (ground arith)
      ∙ load_bytes-store_bytes_apart p n (d + 36) (0x21 ∷ []) m (ground arith)

module _ {W : Type 0} (bench : Bench W) {patience : ℕ} (engine : Engine bench.dma patience)
    (enough : patience ≤ bench.board.rounds) where
  check_lem :
      (u d : ℕ) (s : State W) (m : Memory)
      → s.mem ≡ m
      → load_bytes u 19 m ≡ dma_text
      → load_bytes bench.gold 38 m ≡ dma_2d_gold
      → Apart d 38 u 19
      → Apart d 38 bench.gold 38
      → (t : State W) × ((do
        store (d + 36) (0x21 ∷ [])
        store (d + 37) (0 ∷ [])
        dma_2d_blk_memcpy bench.dma bench.board.rounds d u 15 7 1 4 0
        errors ← count_errors d bench.gold 38 38
        return_int errors)
            s
          ≡ ok tt t)
  check_lem u d s m e text gold apart_u apart_g =
      let ready : State W = record s { mem = ended d s.mem } in
      let copy =
        dma_2d_blk_memcpy-copies engine bench.board.rounds d u 15 7 1 4 0 ready enough
          (omega arith) in
      let source : u ≡ u + 0 = omega arith in
      let after : copy.final.mem ≡ m4 d (ended d m) =
        copy.holds
        ∙ ap (λ f. copy_rows 4 d u 15 7 1 (ended d f)) e
        ∙ ap (λ a. copy_rows 4 d a 15 7 1 (ended d m)) source
        ∙ rows_lem 4 d u 0 (ended d m) (kept d m u 19 apart_u ∙ text) (omega arith)
            (ground arith) in
      let same : load_bytes d 38 (m4 d (ended d m)) ≡ load_bytes bench.gold 38 (m4 d (ended d m)) =
        whole d (ended d m) (end_text d m)
        ∙ sym (
            outside d (ended d m) bench.gold 38 (ground arith)
            ∙ kept d m bench.gold 38 apart_g
            ∙ gold) in
      let count = count_errors_lem d bench.gold 38 38 copy.final (m4 d (ended d m)) after same in
      rw (copy.runs, count.runs) (count.final, refl)

  -- With a DMA engine that finishes in time, and locals that do not overlap, neither with one another nor
  -- with the uncached mapping: the test of a copy in two dimensions passes.
  pub dma_2d_main-passes :
      (s : State W)
      → let u = bench.src_cached + uncached in
        let d = bench.dst_cached + uncached in
        HasFeature bench dma_bit s
        → Apart bench.src_cached 19 bench.gold 38
        → Apart u 19 bench.gold 38
        → Apart d 38 u 19
        → Apart d 38 bench.gold 38
        → (t : State W) × (dma_2d_main bench s ≡ ok tt t)
  unfolding dma_2d_main chs_hw_feature_present
  dma_2d_main-passes s has apart_g apart_ug apart_du apart_dg =
      let cached : ℕ = bench.src_cached in
      let g : ℕ = bench.gold in
      let u : ℕ = cached + uncached in
      let apart_u : Apart cached 19 u 19 = inl (omega arith) in
      let m_texts : Memory = initialised cached u g dma_2d_gold s.mem apart_u apart_g in
      let fill = copy_loop_lem u cached 19 (record s { mem = m_texts }) m_texts refl apart_u in
      rw (has, fill.runs)
        (check_lem u (bench.dst_cached + uncached) fill.final _ fill.holds
          (filled_text cached u g dma_2d_gold s.mem apart_u apart_g)
          (filled_gold cached u g dma_2d_gold s.mem apart_u apart_g apart_ug) apart_du apart_dg)
