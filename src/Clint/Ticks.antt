-- ===== src/Clint/Ticks.antt =====
-- The wait for a number of ticks of sw/lib/dif/clint.c, and what it leaves alone.
use cheshire_can.Prelude.{
  ℕ, zero, suc, ◌+◌, ◌*◌, ◌/◌, ◌≤◌, ◌<◌, ◌≡◌, ◌∙◌, arith, inl, inr, ltb, bit_or, Bool-cases,
}
use mathlib.Core.Path.{subst}
use native.Mathlib.Nat.{mul-le-mul_right}
use cheshire_can.Word.{u64, ◌<<<◌}
use cheshire_can.Machine.{State, Run, ok, err, hang}
use cheshire_can.Machine.Yields.{Yields}
use cheshire_can.Clint.{Clint, clint_get_mtime, clint_spin_until, clint_spin_ticks}
use cheshire_can.Clint.Frequency.{Steady, get_mtime_lem, quotient_below, clint_spin_until-ends}

-- The world that a run leaves, if it returns, has a property.
abbrev Keeps : {W A : Type 0} → (W → Type 0) → Run W A → Type 0
Keeps P (ok a s) = P s.world
Keeps P (err code s) = P s.world
Keeps P hang = Unit

module _ {W : Type 0} (clint : Clint W) (P : W → Type 0)
    (high : (w : W) → P w → P (clint.mtime_high w).1)
    (low : (w : W) → P w → P (clint.mtime_low w).1) where
  clint_spin_until-Keeps :
      (rounds tgt_mtime : ℕ) (s : State W)
      → P s.world
      → Keeps P (clint_spin_until clint rounds tgt_mtime s)
  unfolding clint_spin_until clint_get_mtime
  clint_spin_until-Keeps zero tgt s p = tt
  clint_spin_until-Keeps (suc rounds) tgt s p =
      let (h, v) = clint.mtime_high s.world in
      let (l, w) = clint.mtime_low v in
      let later : P w = low v (high s.world p) in
      elim (Bool-cases (ltb (bit_or (h <<< 32) l) tgt)) [
        | inl early ↦ rw early (clint_spin_until-Keeps rounds tgt (record s { world = w }) later)
        | inr over ↦ rw over later
      ]

  clint_spin_ticks-Keeps :
      (rounds ticks : ℕ) (s : State W) → P s.world → Keeps P (clint_spin_ticks clint rounds ticks s)
  unfolding clint_spin_ticks clint_get_mtime
  clint_spin_ticks-Keeps rounds ticks s p =
      clint_spin_until-Keeps rounds _ _ (low _ (high s.world p))

  module _ {ratio step : ℕ} (steady : Steady clint ratio step) where
    -- A wait for so many ticks ends, for a round for every cycle of them.
    pub clint_spin_ticks-ends :
        (rounds ticks : ℕ) (s : State W)
        → P s.world
        → 0 < ratio
        → ticks * ratio ≤ rounds
        → 0 < rounds
        → Yields (λ s'. P s'.world × (s'.mem ≡ s.mem)) tt (clint_spin_ticks clint rounds ticks s)
    unfolding clint_spin_ticks
    clint_spin_ticks-ends rounds ticks s p pos enough some_rounds =
        let (d, look) = get_mtime_lem steady s in
        let (from, to, near, mem) = look.holds in
        let t : ℕ = d / ratio in
        let now : t * ratio ≤ d = quotient_below ratio d in
        let split : (t + ticks) * ratio ≡ t * ratio + ticks * ratio = omega arith in
        let least : u64 (t + ticks) * ratio ≤ (t + ticks) * ratio =
          mul-le-mul_right ratio (omega arith) in
        let rest =
          clint_spin_until-ends steady rounds (u64 (t + ticks)) look.final pos (omega arith) in
        let kept = clint_spin_ticks-Keeps rounds ticks s p in
        let runs : clint_spin_ticks clint rounds ticks s ≡ ok tt rest.final =
          rw look.runs rest.runs in
        record {
          final = rest.final;
          runs = runs;
          holds = (subst (Keeps P) runs kept, rest.holds.1 ∙ mem);
        }
