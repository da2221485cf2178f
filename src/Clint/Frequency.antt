-- ===== src/Clint/Frequency.antt =====
-- The core frequency that sw/lib/dif/clint.c measures, for a steady clock.
use native.Mathlib.Nat.{
  div-eq_of_lt-le, div-mul-le_self, div-lt_iff_lt-mul, le-div_iff_mul-le, lt-div-mul-add,
  le-mul_of_pos_right, mul-le-mul_right,
}
use cheshire_can.Prelude.{
  ℕ, zero, suc, ◌+◌, ◌-◌, ◌*◌, ◌/◌, ◌%◌, ◌^◌, ◌≤◌, ◌<◌, ◌≡◌, refl, ◌≢◌, ◌∙◌, arith, inl, inr,
  bit_or, ltb, ◌==◌, Bool-cases, ==_iff,
}
use cheshire_can.Word.{u64, sub64, ◌<<<◌}
use cheshire_can.Word.Mask.{bit_or_disjoint}
use cheshire_can.Machine.{State}
use cheshire_can.Machine.Yields.{Yields, yields}
use cheshire_can.Clint.{
  Clint, clint_spin_until, clint_get_mtime, capture_start, capture_end, clint_get_core_freq,
}

-- A core of `ratio` cycles for every tick of the timer. A read of the cycle counter or of the time, with
-- both halves of one time, tells of a cycle that it takes, and it takes at most `step` of them.
pub record Steady {W : Type 0} (clint : Clint W) (ratio step : ℕ) : Type 0 where
  pub cycle : W → ℕ
  pub mcycle_runs :
      (w : W)
      → (c : ℕ) × (w' : W) × (clint.mcycle w ≡ (c, w'))
        × (cycle w ≤ c)
        × (c < cycle w')
        × (cycle w' ≤ cycle w + step)
  pub mtime_runs :
      (w : W)
      → (c : ℕ) × (v : W) × (w' : W) × (clint.mtime_high w ≡ (c / ratio / 2 ^ 32, v))
        × (clint.mtime_low v ≡ (c / ratio % 2 ^ 32, w'))
        × (cycle w ≤ c)
        × (c < cycle w')
        × (cycle w' ≤ cycle w + step)

-- The quotient by its bounds, and the bounds of a quotient.
quotient : (ratio c t : ℕ) → t * ratio ≤ c → c < t * ratio + ratio → c / ratio ≡ t
quotient ratio c t low high = div-eq_of_lt-le {k = t} ratio {m = c} low (omega arith)

pub quotient_below : (ratio c : ℕ) → c / ratio * ratio ≤ c
quotient_below ratio c = div-mul-le_self c ratio

-- A time that is not yet there is of a cycle before it.
before_tick : (ratio c t : ℕ) → 0 < ratio → c / ratio < t → c < t * ratio
before_tick ratio c t pos early = (div-lt_iff_lt-mul {k = ratio} {x = c} {y = t} pos).0 early

after_tick : (ratio c t : ℕ) → 0 < ratio → t ≤ c / ratio → t * ratio ≤ c
after_tick ratio c t pos late = (le-div_iff_mul-le {k = ratio} {x = t} {y = c} pos).0 late

module _ {W : Type 0} {clint : Clint W} {ratio step : ℕ} (steady : Steady clint ratio step) where
  -- A cycle that lies between two states.
  abbrev pub IsBetween : ℕ → State W → State W → Type 0
  IsBetween c s s' =
      (steady.cycle s.world ≤ c)
      × (c < steady.cycle s'.world)
      × (steady.cycle s'.world ≤ steady.cycle s.world + step)
      × (s'.mem ≡ s.mem)

  pub get_mtime_lem :
      (s : State W) → (c : ℕ) × Yields (IsBetween c s) (c / ratio) (clint_get_mtime clint s)
  unfolding clint_get_mtime
  get_mtime_lem s =
      let (c, v, w', high, low, from, to, near) = steady.mtime_runs s.world in
      let joined : bit_or (c / ratio / 2 ^ 32 <<< 32) (c / ratio % 2 ^ 32) ≡ c / ratio =
        bit_or_disjoint 32 (c / ratio / 2 ^ 32) (c / ratio % 2 ^ 32) (omega arith) ∙ omega arith in
      (c, rw (high, low, joined) (yields _ _ (from, to, near, refl)))

  -- A cycle that is at most two steps off a tick.
  abbrev pub IsNear : ℕ → ℕ → Type 0
  IsNear c t = (t * ratio ≤ c + 2 * step) × (c ≤ t * ratio + 2 * step)

  module _ (pos : 0 < ratio) (fast : 4 * step ≤ ratio) where
    capture_start_lem :
        (rounds t : ℕ) (s : State W)
        → t * ratio ≤ steady.cycle s.world
        → steady.cycle s.world < t * ratio + ratio + step
        → t * ratio + ratio + step - steady.cycle s.world < rounds
        → (c : ℕ) × IsNear c (t + 1)
          × Yields
              (λ s'.
                ((t + 1) * ratio ≤ steady.cycle s'.world)
                × (steady.cycle s'.world < (t + 1) * ratio + 3 * step)
                × (s'.mem ≡ s.mem))
              (c, t + 1)
              (capture_start clint rounds t s)
    unfolding capture_start
    capture_start_lem zero t s from to fuel = elim fuel [ ]
    capture_start_lem (suc rounds) t s from to fuel =
        let (c, w', runs, c_from, c_to, c_near) = steady.mcycle_runs s.world in
        let middle : State W = record s { world = w' } in
        let (d, look) = get_mtime_lem middle in
        let (d_from, d_to, d_near, d_mem) = look.holds in
        let next_tick : (t + 1) * ratio ≡ t * ratio + ratio = omega arith in
        elim (Bool-cases (d / ratio == t)) [
          | inl still ↦
              let same : d / ratio ≡ t = (==_iff (d / ratio) t).0 still in
              let early : d < (t + 1) * ratio = before_tick ratio d (t + 1) pos (omega arith) in
              let (e, near, rest) =
                capture_start_lem rounds t look.final (omega arith) (omega arith) (omega arith) in
              rw (runs, look.runs, still, rest.runs)
                (e, near, yields _ rest.final (rest.holds.0, rest.holds.1, rest.holds.2 ∙ d_mem))
          | inr over ↦
              let other : d / ratio ≢ t = λ e. (let yes = (==_iff (d / ratio) t).1 e in cc) in
              let past : t ≤ d / ratio =
                (le-div_iff_mul-le {k = ratio} {x = t} {y = d} pos).1 (omega arith) in
              let late : (t + 1) * ratio ≤ d = after_tick ratio d (t + 1) pos (omega arith) in
              let now : d / ratio ≡ t + 1 = quotient ratio d (t + 1) late (omega arith) in
              rw (runs, look.runs, over, now)
                (
                  c,
                  (omega arith, omega arith),
                  yields _ look.final (omega arith, omega arith, d_mem),
                )
        ]

    capture_end_lem :
        (rounds u : ℕ) (s : State W)
        → steady.cycle s.world < u * ratio + step
        → u * ratio + step - steady.cycle s.world < rounds
        → (c : ℕ) × IsNear c u × Yields (λ s'. s'.mem ≡ s.mem) (c, u) (capture_end clint rounds u s)
    unfolding capture_end
    capture_end_lem zero u s to fuel = elim fuel [ ]
    capture_end_lem (suc rounds) u s to fuel =
        let (c, w', runs, c_from, c_to, c_near) = steady.mcycle_runs s.world in
        let middle : State W = record s { world = w' } in
        let (d, look) = get_mtime_lem middle in
        let (d_from, d_to, d_near, d_mem) = look.holds in
        elim (Bool-cases (ltb (d / ratio) u)) [
          | inl early ↦
              let before : d < u * ratio = before_tick ratio d u pos (ground arith) in
              let (e, near, rest) =
                capture_end_lem rounds u look.final (omega arith) (omega arith) in
              rw (runs, look.runs, early, rest.runs)
                (e, near, yields _ rest.final (rest.holds ∙ d_mem))
          | inr over ↦
              let late : u * ratio ≤ d = after_tick ratio d u pos (ground arith) in
              let now : d / ratio ≡ u = quotient ratio d u late (omega arith) in
              rw (runs, look.runs, over, now)
                (c, (omega arith, omega arith), yields _ look.final d_mem)
        ]

    -- The measured frequency, from the cycles between two ticks that are `n` ticks apart.
    quotient_near :
        (k n ref : ℕ)
        → 0 < n
        → n * ratio ≤ k + 4 * step
        → k ≤ n * ratio + 4 * step
        → (k * ref / n * n ≤ (n * ratio + 4 * step) * ref)
          × (n * ratio * ref < (k * ref / n + 1) * n + 4 * step * ref)
    quotient_near k n ref some_ticks low high =
        let below : k * ref / n * n ≤ k * ref = div-mul-le_self (k * ref) n in
        let above : k * ref < k * ref / n * n + n = lt-div-mul-add some_ticks in
        let most : k * ref ≤ (n * ratio + 4 * step) * ref = mul-le-mul_right ref high in
        let least : n * ratio * ref ≤ (k + 4 * step) * ref = mul-le-mul_right ref low in
        let split : (k + 4 * step) * ref ≡ k * ref + 4 * step * ref = omega arith in
        let more : (k * ref / n + 1) * n ≡ k * ref / n * n + n = omega arith in
        (omega arith, omega arith)

    -- Measuring against a reference of `ref_freq` ticks in a second, on a core of `ratio` cycles for every
    -- tick whose reads take at most `step` of them, which is a quarter of a tick at most: for more rounds
    -- than there are cycles in `n + 2` ticks, where `n` is the number of ticks that are waited for, and
    -- if no number comes near 2^64, it returns with the memory as before, and the result times `n` differs by at most
    -- `4 * step * ref_freq`, and by less than `n` from rounding down, from the frequency times `n`.
    pub clint_get_core_freq-measures :
        (rounds ref_freq ref_time_inv : ℕ) (s : State W)
        → let n = ref_freq / ref_time_inv in
          0 < n
          → (n + 2) * ratio ≤ rounds
          → steady.cycle s.world + (n + 3) * ratio < 2 ^ 64
          → (n * ratio + 4 * step) * ref_freq < 2 ^ 64
          → (f : ℕ) × Yields
              (λ s'. s'.mem ≡ s.mem)
              f
              (clint_get_core_freq clint rounds ref_freq ref_time_inv s)
            × (f * n ≤ (n * ratio + 4 * step) * ref_freq)
            × (n * ratio * ref_freq < (f + 1) * n + 4 * step * ref_freq)
    unfolding clint_get_core_freq
    clint_get_core_freq-measures rounds ref_freq ref_time_inv s some_ticks enough small narrow =
        let n : ℕ = ref_freq / ref_time_inv in
        let (d, look) = get_mtime_lem s in
        let (from, to, near, mem) = look.holds in
        let t : ℕ = d / ratio in
        let low : t * ratio ≤ d = quotient_below ratio d in
        let high : d < (t + 1) * ratio = before_tick ratio d (t + 1) pos (omega arith) in
        let u : ℕ = t + 1 + n in
        let next_tick : (t + 1) * ratio ≡ t * ratio + ratio = omega arith in
        let last_tick : u * ratio ≡ t * ratio + ratio + n * ratio = omega arith in
        let budget : (n + 2) * ratio ≡ n * ratio + 2 * ratio = omega arith in
        let room : (n + 3) * ratio ≡ n * ratio + 3 * ratio = omega arith in
        let one_tick : ratio ≤ n * ratio =
          let one = mul-le-mul_right {m = 1} {n = n} ratio some_ticks in omega arith in
        let (sc, sc_near, start) =
          capture_start_lem rounds t look.final (omega arith) (omega arith) (omega arith) in
        let (ec, ec_near, end) = capture_end_lem rounds u start.final (omega arith) (omega arith) in
        let wide : u ≤ u * ratio = le-mul_of_pos_right {m = ratio} u pos in
        let until : u64 (t + 1 + n) ≡ u = omega arith in
        let k : ℕ = ec - sc in
        let cycles : sub64 ec sc ≡ k = omega arith in
        let ticks : sub64 u (t + 1) ≡ n = omega arith in
        let most : k * ref_freq ≤ (n * ratio + 4 * step) * ref_freq =
          mul-le-mul_right {m = k} ref_freq (omega arith) in
        let product : u64 (k * ref_freq) ≡ k * ref_freq = omega arith in
        let (below, above) = quotient_near k n ref_freq some_ticks (omega arith) (omega arith) in
        (
          k * ref_freq / n,
          rw (look.runs, start.runs, until, end.runs, cycles, ticks, product)
              (yields _ end.final (end.holds ∙ start.holds.2 ∙ mem)),
          below,
          above,
        )

  -- On a core of `ratio` cycles for every tick, with a steady clock, a wait for a time returns for more rounds
  -- than there are cycles until its tick, not before that tick, and with the memory as before.
  pub clint_spin_until-ends :
      (rounds tgt_mtime : ℕ) (s : State W)
      → 0 < ratio
      → tgt_mtime * ratio - steady.cycle s.world < rounds
      → Yields
          (λ s'. (tgt_mtime * ratio ≤ steady.cycle s'.world) × (s'.mem ≡ s.mem))
          tt
          (clint_spin_until clint rounds tgt_mtime s)
  unfolding clint_spin_until
  clint_spin_until-ends zero tgt s pos fuel = elim fuel [ ]
  clint_spin_until-ends (suc rounds) tgt s pos fuel =
      let (d, look) = get_mtime_lem s in
      let (from, to, near, mem) = look.holds in
      elim (Bool-cases (ltb (d / ratio) tgt)) [
        | inl early ↦
            let before : d < tgt * ratio = before_tick ratio d tgt pos (ground arith) in
            let rest = clint_spin_until-ends rounds tgt look.final pos (omega arith) in
            rw (look.runs, early, rest.runs)
              (yields tt rest.final (rest.holds.0, rest.holds.1 ∙ mem))
        | inr over ↦
            let late : tgt * ratio ≤ d = after_tick ratio d tgt pos (ground arith) in
            rw (look.runs, over) (yields tt look.final (omega arith, mem))
      ]
