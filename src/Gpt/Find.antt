-- ===== src/Gpt/Find.antt =====
-- The search for a partition, over a read function that delivers the disk's bytes.
use cheshire_can.Prelude.{
  ◌≤◌, arith, ℕ, zero, suc, ◌+◌, Bool, true, false, ◌||◌, Option, none, some, ◌≡◌, inl, inr,
  Bool-cases,
}
use cheshire_can.Word.{u64}
use cheshire_can.Machine.{State, Cmd}
use cheshire_can.Machine.Store.{load_bytes}
use cheshire_can.Machine.Yields.{Yields, yields, bind}
use cheshire_can.Gpt.{
  Extent, Guid, Found, Frame, entry_offs, record_first, is_too_large, read_local, check_signature,
  matches, is_wanted, find_loop, find_partition,
}
use cheshire_can.Gpt.Choice.{header, is_signed, extent_at, matches_at, IsChoice}
use cheshire_can.Gpt.Search.{search, search-IsChoice}

-- A read function that delivers: from a state that it is ready in, and for at most so many bytes, it returns zero, has put the disk's
-- bytes where they were asked for, and is ready again.
pub record Reader {W : Type 0} (read : ℕ → ℕ → ℕ → Cmd W (Unit {0})) (disk : ℕ → ℕ) : Type 1 where
  pub IsReady : State W → Type 0
  pub limit : ℕ
  pub fields_fit : 16 ≤ limit
  pub delivers :
      (p addr n : ℕ) (s : State W)
      → n ≤ limit
      → IsReady s
      → Yields
          (λ s'. IsReady s' × (load_bytes p n s'.mem ≡ load_bytes addr n disk))
          tt
          (read p addr n s)

module _ {W : Type 0} {read : ℕ → ℕ → ℕ → Cmd W (Unit {0})} {disk : ℕ → ℕ}
    (reader : Reader read disk) (frame : Frame) where
  read_local-IsReady :
      (p addr n : ℕ) {s : State W}
      → n ≤ 16
      → reader.IsReady s
      → Yields reader.IsReady (load_bytes addr n disk) (read_local read frame p addr n s)
  read_local-IsReady p addr n {s} small ready =
      let fits = reader.fields_fit in
      bind _ (reader.delivers p addr n s (omega arith) ready) (λ s h. rw (← h.1) (yields _ s h.0))

  pub check_signature-IsReady :
      {s : State W}
      → reader.IsReady s
      → Yields reader.IsReady (is_signed disk) (check_signature read frame s)
  unfolding check_signature
  check_signature-IsReady ready =
      let y = read_local-IsReady frame.sig 0x200 8 (omega arith) ready in
      rw y.runs (yields _ y.final y.holds)

  matches-IsReady :
      (wanted : Option Guid) (addr : ℕ) {s : State W}
      → reader.IsReady s
      → Yields reader.IsReady (matches_at disk wanted addr) (matches read frame wanted addr s)
  unfolding matches
  matches-IsReady none addr {s} ready = yields false s ready
  matches-IsReady (some wanted) addr ready =
      bind _ (read_local-IsReady frame.guid addr 16 (omega arith) ready) (λ s h. yields _ s h)

  is_wanted-IsReady :
      (tguid pguid : Option Guid) (pe_offs : ℕ) {s : State W}
      → reader.IsReady s
      → Yields reader.IsReady
          (matches_at disk tguid pe_offs || matches_at disk pguid (u64 (pe_offs + 0x10)))
          (is_wanted read frame tguid pguid pe_offs s)
  unfolding is_wanted
  is_wanted-IsReady tguid pguid pe_offs ready = bind _ (matches-IsReady tguid pe_offs ready) λ s h.
      elim (Bool-cases (matches_at disk tguid pe_offs)) [
        | inl e ↦ rw e (yields true s h)
        | inr e ↦ rw e (matches-IsReady pguid (u64 (pe_offs + 0x10)) h)
      ]

  find_loop-search :
      (max_lbas : ℕ) (tguid pguid : Option Guid) (left p : ℕ) (extent : Extent) {s : State W}
      → reader.IsReady s
      → Yields reader.IsReady
          (search disk max_lbas tguid pguid left p extent)
          (find_loop read frame (header disk) max_lbas tguid pguid left p extent s)
  unfolding find_loop search
  find_loop-search max_lbas tguid pguid zero p extent {s} ready = yields _ s ready
  find_loop-search max_lbas tguid pguid (suc left) p extent ready =
      let offs : ℕ = entry_offs (header disk) p in
      let wanted : Bool = matches_at disk tguid offs || matches_at disk pguid (u64 (offs + 0x10)) in
      bind _ (read_local-IsReady frame.dim (u64 (offs + 0x20)) 16 (omega arith) ready) λ s ready.
        elim (Bool-cases (is_too_large max_lbas (extent_at disk p))) [
          | inl e ↦ rw e (
              find_loop-search max_lbas tguid pguid left (p + 1)
                (record_first max_lbas p (extent_at disk p) extent) ready)
          | inr e ↦ rw e (
              bind _ (is_wanted-IsReady tguid pguid offs ready) λ s ready.
                elim (Bool-cases wanted) [
                  | inl w ↦ rw w (yields _ s ready)
                  | inr w ↦ rw w (
                      find_loop-search max_lbas tguid pguid left (p + 1)
                        (record_first max_lbas p (extent_at disk p) extent) ready)
                ])
        ]

  pub find_partition-search :
      (before : Extent) (max_lbas : ℕ) (tguid pguid : Option Guid) {s : State W}
      → reader.IsReady s
      → Yields reader.IsReady
          (search disk max_lbas tguid pguid (header disk).count 0 before)
          (find_partition read frame before max_lbas tguid pguid s)
  unfolding find_partition
  find_partition-search before max_lbas tguid pguid ready =
      bind _ (read_local-IsReady frame.hf 0x248 16 (omega arith) ready)
        λ s ready. find_loop-search max_lbas tguid pguid (header disk).count 0 before ready

  -- The search for a partition on a disk that reads without error: it returns zero, and hands out the
  -- first entry of the table that is small enough and has the type or the identity looked for, or
  -- an index of -1 with the start of the first entry, or with what was there if the table is empty.
  pub find_partition-IsChoice :
      (before : Extent) (max_lbas : ℕ) (tguid pguid : Option Guid) {s : State W}
      → reader.IsReady s
      → (found : Found) × Yields reader.IsReady found
          (find_partition read frame before max_lbas tguid pguid s)
        × IsChoice disk max_lbas tguid pguid before found
  find_partition-IsChoice before max_lbas tguid pguid ready = (
    search disk max_lbas tguid pguid (header disk).count 0 before,
    find_partition-search before max_lbas tguid pguid ready,
    search-IsChoice disk max_lbas tguid pguid before,
  )
