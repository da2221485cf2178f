-- ===== src/Gpt/Search.antt =====
-- The search of the table without any reading, and that it ends at the first candidate.
use cheshire_can.Prelude.{
  ℕ, zero, suc, ◌+◌, ◌≤◌, ◌<◌, Bool, true, false, Option, none, some, ◌≡◌, ◌⊎◌, refl, ◌∙◌, inl, inr,
  arith, ◌==◌, if◌then◌else◌, Bool-cases, suc-eq-zero,
}
use cheshire_can.Gpt.{Extent, Guid, Found, record_first}
use cheshire_can.Gpt.Choice.{
  header, extent_at, is_candidate, IsChoice, first_candidate, no_candidate, no_entries,
}

le_or_eq : (p k : ℕ) → p ≤ k → (p ≡ k) ⊎ (suc p ≤ k)
le_or_eq p k le = ground arith

module _ (disk : ℕ → ℕ) (max_lbas : ℕ) (tguid pguid : Option Guid) where
  abbrev pub candidate : ℕ → Bool
  candidate = is_candidate disk max_lbas tguid pguid

  -- The search without any reading.
  unfoldable pub search : ℕ → ℕ → Extent → Found
  search zero p extent = record { part_idx = none; extent = extent }
  search (suc left) p extent =
      if candidate p
      then record { part_idx = some p; extent = extent_at disk p }
      else search left (p + 1) (record_first max_lbas p (extent_at disk p) extent)

  -- A search from entry `p` on ends at the first candidate from there, or runs out of entries.
  pub data IsSearch (left p : ℕ) (extent : Extent) (found : Found) : Type 0 where
    stops :
        (q : ℕ)
        → p ≤ q
        → q < p + left
        → candidate q ≡ true
        → ((k : ℕ) → p ≤ k → k < q → candidate k ≡ false)
        → found ≡ record { part_idx = some q; extent = extent_at disk q }
        → IsSearch left p extent found
    runs_out :
        ((k : ℕ) → p ≤ k → k < p + left → candidate k ≡ false)
        → found ≡ record {
          part_idx = none;
          extent = if left == 0 then extent else record_first max_lbas p (extent_at disk p) extent;
        }
        → IsSearch left p extent found

  also_first :
      (p k : ℕ)
      → candidate p ≡ false
      → (suc p ≤ k → candidate k ≡ false)
      → p ≤ k
      → candidate k ≡ false
  also_first p k e later le = elim (le_or_eq p k le) [
    | inl same ↦ rw (← same) e
    | inr above ↦ later above
  ]

  kept :
      (left p : ℕ) (a b c : Extent)
      → (if left == 0
          then record_first max_lbas p a b
          else record_first max_lbas (p + 1) c (record_first max_lbas p a b))
        ≡ record_first max_lbas p a b
  kept left p a b c =
      let later : (p + 1 == 0) ≡ false = ground arith in
      elim (Bool-cases (left == 0)) [ inl e ↦ rw e refl | inr e ↦ rw (e, later) refl ]

  earlier :
      (left p : ℕ) (extent : Extent) {found : Found}
      → candidate p ≡ false
      → IsSearch left (p + 1) (record_first max_lbas p (extent_at disk p) extent) found
      → IsSearch (suc left) p extent found
  earlier left p extent e (stops q le lt yes_q none_k eq) =
      stops q (omega arith) (omega arith) yes_q
        (λ k le lt. also_first p k e (λ above. none_k k (omega arith) lt) le) eq
  earlier left p extent e (runs_out none_k eq) =
      runs_out (λ k le lt. also_first p k e (λ above. none_k k (omega arith) (omega arith)) le)
        (eq
          ∙ rw (kept left p (extent_at disk p) extent (extent_at disk (p + 1)), suc-eq-zero left)
              refl)

  pub search-IsSearch :
      (left p : ℕ) (extent : Extent) → IsSearch left p extent (search left p extent)
  unfolding search
  search-IsSearch zero p extent = runs_out (λ k le lt. absurd (omega arith)) refl
  search-IsSearch (suc left) p extent = elim (Bool-cases (candidate p)) [
    | inl e ↦ rw e (stops p (omega arith) (omega arith) e (λ k le lt. absurd (omega arith)) refl)
    | inr e ↦ rw e (
        earlier left p extent e
          (search-IsSearch left (p + 1) (record_first max_lbas p (extent_at disk p) extent)))
  ]

  -- The search of a whole table makes the right choice.
  pub search-IsChoice :
      (before : Extent)
      → IsChoice disk max_lbas tguid pguid before (search (header disk).count 0 before)
  search-IsChoice before = choose (search-IsSearch (header disk).count 0 before)
    where
      choose :
          {found : Found}
          → IsSearch (header disk).count 0 before found
          → IsChoice disk max_lbas tguid pguid before found
      choose (stops q le lt hit none_k eq) =
          rw eq (first_candidate q (omega arith) hit (λ k h. none_k k (omega arith) h))
      choose (runs_out none_k eq) = elim (Bool-cases ((header disk).count == 0)) [
        | inl e ↦ rw (eq, e) (no_entries (ground arith))
        | inr e ↦
            rw (eq, e) (no_candidate (λ k h. none_k k (omega arith) (omega arith)) (ground arith))
      ]
