-- ===== src/Boot/Parts.antt =====
-- The zero-stage loader copies the partition that it looks for.
use cheshire_can.Prelude.{
  ℕ, ◌≤◌, ◌<◌, Bool, true, false, none, some, ◌≡◌, ◌⊎◌, inl, inr, refl, arith,
}
use cheshire_can.Machine.{State, Cmd}
use cheshire_can.Machine.Store.{load_bytes}
use cheshire_can.Machine.Yields.{Yields, yields}
use cheshire_can.Gpt.{Extent, Guid, Found}
use cheshire_can.Gpt.Choice.{
  header, extent_at, is_candidate, IsChoice, first_candidate, no_candidate, no_entries,
}
use cheshire_can.Gpt.Find.{Reader, find_partition-IsChoice}
use cheshire_can.Gpt.Boot.{addr_of, len_of}
use cheshire_can.Boot.{Board, load_part_or_spin}

order : (p q : ℕ) → (p ≡ q) ⊎ ((p < q) ⊎ (q < p))
order p q = ground arith

module _ (disk : ℕ → ℕ) (max_lbas : ℕ) (pguid : Guid) (stale : Extent) (p : ℕ) where
  abbrev candidate : ℕ → Bool
  candidate = is_candidate disk max_lbas (some pguid) none

  -- The first candidate is the only choice.
  only_choice :
      {found : Found}
      → p < (header disk).count
      → candidate p ≡ true
      → ((q : ℕ) → q < p → candidate q ≡ false)
      → IsChoice disk max_lbas (some pguid) none stale found
      → found ≡ record { part_idx = some p; extent = extent_at disk p }
  only_choice lt hit earlier (first_candidate q q_lt q_hit q_earlier) = elim (order p q) [
    | inl same ↦ rw same refl
    | inr (inl below) ↦ let no_hit = q_earlier p below in cc
    | inr (inr above) ↦ let no_hit = earlier q above in cc
  ]
  only_choice lt hit earlier (no_candidate q_none some_entry) = let no_hit = q_none p lt in cc
  only_choice lt hit earlier (no_entries e) = absurd (omega arith)

  -- With a read function that delivers the disk, from a partition table that has an entry of the type
  -- looked for, which is the first of them that is small enough: the loader returns, and the extent of that
  -- entry is at the destination.
  pub load_part_or_spin-copies :
      {W : Type 0} (board : Board W) {rread : ℕ → ℕ → ℕ → Cmd W (Unit {0})}
      (reader : Reader rread disk) (dst : ℕ) {s : State W}
      → p < (header disk).count
      → candidate p ≡ true
      → ((q : ℕ) → q < p → candidate q ≡ false)
      → len_of (extent_at disk p) ≤ reader.limit
      → reader.IsReady s
      → Yields
          (λ s'.
            load_bytes dst (len_of (extent_at disk p)) s'.mem
            ≡ load_bytes (addr_of (extent_at disk p)) (len_of (extent_at disk p)) disk)
          tt
          (load_part_or_spin board rread stale pguid dst max_lbas s)
  unfolding load_part_or_spin
  load_part_or_spin-copies board reader dst lt hit earlier fits ready =
      let (found, y, choice) =
        find_partition-IsChoice reader board.frame stale max_lbas (some pguid) none ready in
      let same = only_choice lt hit earlier choice in
      let z =
        reader.delivers dst (addr_of (extent_at disk p)) (len_of (extent_at disk p)) y.final fits
          y.holds in
      rw (y.runs, same) (rw z.runs (yields tt z.final z.holds.1))
