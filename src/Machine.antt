-- ===== src/Machine.antt =====
-- The machine that the firmware runs on: byte-addressed memory, a world of devices that only outside
-- code can look into, and functions that return, return a nonzero code, or never return.
pub mod Store
pub mod Chunks
pub mod Yields
use cheshire_can.Prelude.{ℕ, ◌%◌, ◌^◌, Bool, ◌==◌, if◌then◌else◌}
use Store.{Memory, Bytes, load_bytes, store_bytes}

pub record State (W : Type 0) : Type 0 where
  pub world : W
  pub mem : Memory

-- `ok` is a return of zero with a result, `err` the early return of a nonzero code by `CHECK_CALL` or
-- `CHECK_ASSERT`, and `hang` a loop that does not end in the rounds that it is given.
pub data Run (W : Type 0) (A : Type 0) : Type 0 where
  ok : A → State W → Run W A
  err : ℕ → State W → Run W A
  hang : Run W A

abbrev pub Cmd : Type 0 → Type 0 → Type 0
Cmd W A = State W → Run W A

module _ {W : Type 0} where
  abbrev pub pure : {A : Type 0} → A → Cmd W A
  pure = ok

  -- `return code`, with a code that is not zero
  abbrev pub fail : {A : Type 0} → ℕ → Cmd W A
  fail = err

  abbrev pub stuck : {A : Type 0} → Cmd W A
  stuck s = hang

  abbrev pub and_then : {A B : Type 0} → Run W A → (A → Cmd W B) → Run W B
  and_then (ok a s) k = k a s
  and_then (err c s) k = err c s
  and_then hang k = hang

  infixl 5 ◌>>=◌ ◌>>◌
  abbrev pub ◌>>=◌ : {A B : Type 0} → Cmd W A → (A → Cmd W B) → Cmd W B
  m >>= k = λ s. and_then (m s) k

  abbrev pub ◌>>◌ : {A B : Type 0} → Cmd W A → Cmd W B → Cmd W B
  m >> k = m >>= λ _. k

  abbrev pub when : Bool → Cmd W (Unit {0}) → Cmd W (Unit {0})
  when test m = if test then m else pure tt

  -- The value of a function as an `int`: zero is success.
  abbrev pub return_int : ℕ → Cmd W (Unit {0})
  return_int code = if code % 2 ^ 32 == 0 then pure tt else fail (code % 2 ^ 32)

  -- `CHECK_ASSERT`
  abbrev pub check_assert : ℕ → Bool → Cmd W (Unit {0})
  check_assert code test = if test then pure tt else fail code

  -- `CHECK_CALL` of a function outside the repository that changes devices only.
  abbrev pub check_call : (W → ℕ × W) → Cmd W (Unit {0})
  check_call f s = let (code, w) = f s.world in return_int code (record s { world = w })

  -- A call whose result is not looked at.
  abbrev pub run : (W → W) → Cmd W (Unit {0})
  run f s = ok tt (record s { world = f s.world })

  abbrev pub load : ℕ → ℕ → Cmd W Bytes
  load p n s = ok (load_bytes p n s.mem) s

  abbrev pub store : ℕ → Bytes → Cmd W (Unit {0})
  store p bytes s = ok tt (record s { mem = store_bytes p bytes s.mem })

  -- A change of memory that cannot fail.
  abbrev pub modify : (Memory → Memory) → Cmd W (Unit {0})
  modify f s = ok tt (record s { mem = f s.mem })
