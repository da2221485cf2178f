-- ===== src/Machine/Yields.antt =====
-- Total correctness of a run: the value that it returns and a property of the state that it leaves,
-- or the code that it fails with.
use cheshire_can.Prelude.{ℕ, ◌≡◌, refl}
use cheshire_can.Machine.{State, Run, ok, err, Cmd, and_then}

pub record Yields {W A : Type 0} (P : State W → Type 0) (a : A) (r : Run W A) : Type 0 where
  pub final : State W
  pub runs : r ≡ ok a final
  pub holds : P final

pub record Fails {W A : Type 0} (code : ℕ) (r : Run W A) : Type 0 where
  pub final : State W
  pub runs : r ≡ err code final

-- A failure together with a property of the state that it leaves.
pub record Refuses {W A : Type 0} (P : State W → Type 0) (code : ℕ) (r : Run W A) : Type 0 where
  pub final : State W
  pub runs : r ≡ err code final
  pub holds : P final

module _ {W A : Type 0} where
  pub yields : {P : State W → Type 0} (a : A) (s : State W) → P s → Yields P a (ok a s)
  yields a s h = record { final = s; runs = refl; holds = h }

  pub fails : (code : ℕ) (s : State W) → Fails {A = A} code (err code s)
  fails code s = record { final = s; runs = refl }

  pub refuses :
      {P : State W → Type 0} (code : ℕ) (s : State W) → P s → Refuses {A = A} P code (err code s)
  refuses code s h = record { final = s; runs = refl; holds = h }

module _ {W A B : Type 0} {P : State W → Type 0} {a : A} {r : Run W A} (k : A → Cmd W B) where
  -- The rest of a block runs from the state that the first command leaves.
  pub bind :
      {Q : State W → Type 0} {b : B}
      → Yields P a r
      → ((s : State W) → P s → Yields Q b (k a s))
      → Yields Q b (and_then r k)
  bind y next = rw y.runs (next y.final y.holds)

  pub bind-Fails :
      {code : ℕ}
      → Yields P a r
      → ((s : State W) → P s → Fails code (k a s))
      → Fails code (and_then r k)
  bind-Fails y next = rw y.runs (next y.final y.holds)

  pub bind-Refuses :
      {Q : State W → Type 0} {code : ℕ}
      → Yields P a r
      → ((s : State W) → P s → Refuses Q code (k a s))
      → Refuses Q code (and_then r k)
  bind-Refuses y next = rw y.runs (next y.final y.holds)

module _ {W A B : Type 0} {r : Run W A} (k : A → Cmd W B) where
  -- A failure skips the rest of the block.
  pub Fails-bind : {code : ℕ} → Fails code r → Fails code (and_then r k)
  Fails-bind f = record { final = f.final; runs = rw f.runs }
