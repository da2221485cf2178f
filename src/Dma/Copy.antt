-- ===== src/Dma/Copy.antt =====
-- A copy that is waited for is done.
use cheshire_can.Prelude.{
  ℕ, zero, suc, ◌+◌, ◌-◌, ◌/◌, ◌%◌, ◌^◌, ◌≤◌, ◌<◌, ◌≡◌, refl, ap, bit_or, if◌then◌else◌, ◌∙◌, arith,
  ◌==◌, true, false, inl, inr, Bool-cases,
}
use cheshire_can.Word.Mask.{bit_or_comm, bit_or_disjoint}
use cheshire_can.Machine.{State, ◌>>=◌}
use cheshire_can.Machine.Store.{Memory, copy_bytes}
use cheshire_can.Machine.Yields.{Yields, yields}
use cheshire_can.Dma.{
  Dma, src_offs, dst_offs, length_offs, conf_offs, next_id_offs, done_id_offs, dst_stride_offs,
  src_stride_offs, reps_offs, read_dma, dma_2d_memcpy, dma_2d_blk_memcpy, dma_memcpy, wait_done,
  dma_blk_memcpy,
}

-- The registers of a transfer as they were last written.
pub record Setup : Type 0 where
  pub src : ℕ
  pub dst : ℕ
  pub size : ℕ
  pub conf : ℕ
  pub dst_stride : ℕ
  pub src_stride : ℕ
  pub reps : ℕ

-- A copy of so many rows.
unfoldable pub copy_rows : ℕ → ℕ → ℕ → ℕ → ℕ → ℕ → Memory → Memory
copy_rows zero dst src size dst_stride src_stride mem = mem
copy_rows (suc reps) dst src size dst_stride src_stride mem =
    copy_rows reps (dst + dst_stride) (src + src_stride) size dst_stride src_stride
      (copy_bytes dst src size mem)

-- What a transfer leaves: the rows in turn if the configuration enables two dimensions.
abbrev pub transfer : Setup → Memory → Memory
transfer t mem =
    if t.conf / 2 ^ 10 % 2 == 1
    then copy_rows t.reps t.dst t.src t.size t.dst_stride t.src_stride mem
    else copy_bytes t.dst t.src t.size mem

-- What the code relies on: writes set the registers, reading the next transfer's number starts it, and
-- after less than `patience` looks the number of the last finished one is this, and the bytes are copied.
pub record Engine {W : Type 0} (dma : Dma W) (patience : ℕ) : Type 0 where
  pub setup : State W → Setup
  -- The transfer that runs, the looks that are left until it is done, and the memory that it leaves.
  pub running : State W → ℕ
  pub left : State W → ℕ
  pub result : State W → Memory
  pub sets_src :
      (v : ℕ) (s : State W) → setup (dma.write64 src_offs v s) ≡ record (setup s) { src = v }
  pub sets_dst :
      (v : ℕ) (s : State W) → setup (dma.write64 dst_offs v s) ≡ record (setup s) { dst = v }
  pub sets_size :
      (v : ℕ) (s : State W) → setup (dma.write64 length_offs v s) ≡ record (setup s) { size = v }
  pub sets_conf :
      (v : ℕ) (s : State W) → setup (dma.write64 conf_offs v s) ≡ record (setup s) { conf = v }
  pub sets_dst_stride :
      (v : ℕ) (s : State W)
      → setup (dma.write64 dst_stride_offs v s) ≡ record (setup s) { dst_stride = v }
  pub sets_src_stride :
      (v : ℕ) (s : State W)
      → setup (dma.write64 src_stride_offs v s) ≡ record (setup s) { src_stride = v }
  pub sets_reps :
      (v : ℕ) (s : State W) → setup (dma.write64 reps_offs v s) ≡ record (setup s) { reps = v }
  pub keeps : (offs v : ℕ) (s : State W) → (dma.write64 offs v s).mem ≡ s.mem
  pub starts :
      (s : State W)
      → (tf_id : ℕ) × (s' : State W) × (dma.read64 next_id_offs s ≡ (tf_id, s'))
        × (running s' ≡ tf_id)
        × (left s' < patience)
        × (result s' ≡ transfer (setup s) s.mem)
  pub looks :
      (s : State W)
      → (done : ℕ) × (s' : State W) × (dma.read64 done_id_offs s ≡ (done, s'))
        × ((done == running s) ≡ (left s == 0))
        × (running s' ≡ running s)
        × (left s' ≡ left s - 1)
        × (result s' ≡ result s)
        × (left s ≡ 0 → s'.mem ≡ result s)

module _ {W : Type 0} {dma : Dma W} {patience : ℕ} (engine : Engine dma patience) where
  wait_lem :
      (rounds tf_id : ℕ) {s : State W} {m : Memory}
      → engine.left s < rounds
      → engine.running s ≡ tf_id
      → engine.result s ≡ m
      → Yields (λ s'. s'.mem ≡ m) tt (wait_done dma rounds tf_id s)
  unfolding wait_done
  wait_lem zero tf_id bound id e = elim bound [ ]
  wait_lem (suc rounds) tf_id {s} bound id e =
      let (done, s', runs, test, same, fewer, kept, copied) = engine.looks s in
      elim (Bool-cases (engine.left s == 0)) [
        | inl over ↦
            let over_test : (done == tf_id) ≡ true = rw (← id) (test ∙ over) in
            rw (runs, over_test) (yields tt s' (copied (ground arith) ∙ e))
        | inr still ↦
            let still_test : (done == tf_id) ≡ false = rw (← id) (test ∙ still) in
            rw (runs, still_test) (wait_lem rounds tf_id (ground arith) (same ∙ id) (kept ∙ e))
      ]

  -- The four writes that both copies begin with.
  set_lem :
      (dst src size conf : ℕ) (s : State W)
      → (s' : State W) × (s'
          ≡ dma.write64 conf_offs conf (
              dma.write64 length_offs size (dma.write64 dst_offs dst (dma.write64 src_offs src s))))
        × (engine.setup s'
            ≡ record (engine.setup s) { src = src; dst = dst; size = size; conf = conf })
        × (s'.mem ≡ s.mem)
  set_lem dst src size conf s =
      let a : State W = dma.write64 src_offs src s in
      let b : State W = dma.write64 dst_offs dst a in
      let c : State W = dma.write64 length_offs size b in
      (
        dma.write64 conf_offs conf c,
        refl,
        engine.sets_conf conf c
            ∙ ap (λ (t : Setup). record t { conf = conf })
                (engine.sets_size size b
                  ∙ ap (λ (t : Setup). record t { size = size })
                      (engine.sets_dst dst a
                        ∙ ap (λ (t : Setup). record t { dst = dst }) (engine.sets_src src s))),
        engine.keeps conf_offs conf c
            ∙ engine.keeps length_offs size b
            ∙ engine.keeps dst_offs dst a
            ∙ engine.keeps src_offs src s,
      )

  -- A transfer that is started is waited for.
  start_lem :
      (rounds : ℕ) (s : State W) (m : Memory)
      → patience ≤ rounds
      → transfer (engine.setup s) s.mem ≡ m
      → Yields (λ s'. s'.mem ≡ m) tt ((read_dma dma next_id_offs >>= wait_done dma rounds) s)
  start_lem rounds s m enough e =
      let (tf_id, s', runs, id, soon, copy) = engine.starts s in
      rw runs (wait_lem rounds tf_id (omega arith) id (copy ∙ e))

  -- A blocking copy with a configuration of the low bits only, on an engine that finishes within a
  -- number of looks, for at least that many rounds: it returns, and the memory is as before but for the
  -- bytes copied.
  pub dma_blk_memcpy-copies :
      (rounds dst src size conf : ℕ) (s : State W)
      → patience ≤ rounds
      → conf < 2 ^ 10
      → Yields
          (λ s'. s'.mem ≡ copy_bytes dst src size s.mem)
          tt
          (dma_blk_memcpy dma rounds dst src size conf s)
  unfolding dma_blk_memcpy dma_memcpy
  dma_blk_memcpy-copies rounds dst src size conf s enough low =
      let (s', is, set, mem) = set_lem dst src size conf s in
      let flat : (conf / 2 ^ 10 % 2 == 1) ≡ false = ground arith in
      let whole : transfer (engine.setup s') s'.mem ≡ copy_bytes dst src size s.mem =
        rw (set, mem, flat) refl in
      rw (← is) (start_lem rounds s' (copy_bytes dst src size s.mem) enough whole)

  -- A blocking copy in two dimensions with a configuration of the low bits only, on an engine that finishes
  -- within a number of looks, for at least that many rounds: it returns, and the memory is as after copying the rows
  -- one after the other, each so many bytes behind the last.
  pub dma_2d_blk_memcpy-copies :
      (rounds dst src size dst_stride src_stride num_reps conf : ℕ) (s : State W)
      → patience ≤ rounds
      → conf < 2 ^ 10
      → Yields
          (λ s'. s'.mem ≡ copy_rows num_reps dst src size dst_stride src_stride s.mem)
          tt
          (dma_2d_blk_memcpy dma rounds dst src size dst_stride src_stride num_reps conf s)
  unfolding dma_2d_blk_memcpy dma_2d_memcpy
  dma_2d_blk_memcpy-copies rounds dst src size dst_stride src_stride num_reps conf s enough low =
      let nd : bit_or conf (2 ^ 10) ≡ 2 ^ 10 + conf =
        bit_or_comm conf (2 ^ 10) ∙ bit_or_disjoint 10 1 conf low in
      let (d, is, set, mem) = set_lem dst src size (bit_or conf (2 ^ 10)) s in
      let e : State W = dma.write64 src_stride_offs src_stride d in
      let f : State W = dma.write64 dst_stride_offs dst_stride e in
      let g : State W = dma.write64 reps_offs num_reps f in
      let test : (bit_or conf (2 ^ 10) / 2 ^ 10 % 2 == 1) ≡ true = rw nd (ground arith) in
      let set_all : engine.setup g ≡ record {
        src = src;
        dst = dst;
        size = size;
        conf = bit_or conf (2 ^ 10);
        dst_stride = dst_stride;
        src_stride = src_stride;
        reps = num_reps;
      } =
        engine.sets_reps num_reps f
        ∙ ap (λ (t : Setup). record t { reps = num_reps })
            (engine.sets_dst_stride dst_stride e
              ∙ ap (λ (t : Setup). record t { dst_stride = dst_stride })
                  (engine.sets_src_stride src_stride d
                    ∙ ap (λ (t : Setup). record t { src_stride = src_stride }) set)) in
      let same : g.mem ≡ s.mem =
        engine.keeps reps_offs num_reps f
        ∙ engine.keeps dst_stride_offs dst_stride e
        ∙ engine.keeps src_stride_offs src_stride d
        ∙ mem in
      let whole : transfer (engine.setup g) g.mem
          ≡ copy_rows num_reps dst src size dst_stride src_stride s.mem =
        rw (set_all, same, test) refl in
      rw (← is) (start_lem rounds g _ enough whole)
