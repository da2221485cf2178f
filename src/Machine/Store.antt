-- ===== src/Machine/Store.antt =====
-- Memory by bytes: reads and writes of a run of bytes, and what they have to do with one another.
use mathlib.Core.Path.{ap₂}
use cheshire_can.Prelude.{
  ℕ, zero, suc, ◌+◌, ◌-◌, ◌≤◌, ◌<◌, ◌⊎◌, List, [], ◌∷◌, ◌++◌, ◌≡◌, refl, ap, ◌∙◌, ◌&&◌, arith, ◌==◌,
  ltb, leb, if◌then◌else◌, length, get_or,
}

abbrev pub Memory : Type 0
Memory = ℕ → ℕ

abbrev pub Bytes : Type 0
Bytes = List ℕ

abbrev pub put : Memory → ℕ → ℕ → Memory
put mem p b q = if q == p then b else mem q

-- `len` bytes from `p` upwards
unfoldable pub load_bytes : ℕ → ℕ → Memory → Bytes
load_bytes p zero mem = []
load_bytes p (suc n) mem = mem p ∷ load_bytes (p + 1) n mem

unfoldable pub store_bytes : ℕ → Bytes → Memory → Memory
store_bytes p [] mem = mem
store_bytes p (b ∷ bytes) mem = store_bytes (p + 1) bytes (put mem p b)

-- `__builtin_memcpy`
unfoldable pub copy_bytes : ℕ → ℕ → ℕ → Memory → Memory
copy_bytes dst src n mem = store_bytes dst (load_bytes src n mem) mem

pub length-load_bytes : (p n : ℕ) (mem : Memory) → length (load_bytes p n mem) ≡ n
unfolding load_bytes
length-load_bytes p zero mem = refl
length-load_bytes p (suc n) mem = ap suc (length-load_bytes (p + 1) n mem)

pub get_or-load_bytes :
    (p n : ℕ) (mem : Memory) (i : ℕ) → i < n → get_or (load_bytes p n mem) i 0 ≡ mem (p + i)
unfolding load_bytes
get_or-load_bytes p zero mem i h = elim h [ ]
get_or-load_bytes p (suc n) mem zero h = ap mem (omega arith)
get_or-load_bytes p (suc n) mem (suc i) h =
    get_or-load_bytes (p + 1) n mem i (omega arith) ∙ ap mem (omega arith)

get_or-cons :
    (b : ℕ) (bytes : Bytes) (k : ℕ) → 0 < k → get_or (b ∷ bytes) k 0 ≡ get_or bytes (k - 1) 0
get_or-cons b bytes zero h = elim h [ ]
get_or-cons b bytes (suc k) h = ap (λ t. get_or bytes t 0) (omega arith)

sub-sub : (q p : ℕ) → q - p - 1 ≡ q - (p + 1)
sub-sub q p = omega arith

-- A write reads back inside its range, and leaves the rest alone.
pub store_bytes_at :
    (p : ℕ) (bytes : Bytes) (mem : Memory) (q : ℕ)
    → store_bytes p bytes mem q
      ≡ (if leb p q && ltb q (p + length bytes) then get_or bytes (q - p) 0 else mem q)
unfolding store_bytes
store_bytes_at p [] mem q = ground arith
store_bytes_at p (b ∷ bytes) mem q =
    ground (
      arith,
      store_bytes_at (p + 1) bytes (put mem p b) q,
      get_or-cons b bytes (q - p),
      sub-sub q p,
    )

pub store_bytes-append :
    (p : ℕ) (xs ys : Bytes) (mem : Memory)
    → store_bytes p (xs ++ ys) mem ≡ store_bytes (p + length xs) ys (store_bytes p xs mem)
unfolding store_bytes
store_bytes-append p [] ys mem = ap (λ k. store_bytes k ys mem) (omega arith)
store_bytes-append p (x ∷ xs) ys mem =
    store_bytes-append (p + 1) xs ys (put mem p x)
    ∙ ap (λ k. store_bytes k ys (store_bytes (p + 1) xs (put mem p x))) (omega arith)

store_bytes_below :
    (p : ℕ) (bytes : Bytes) (mem : Memory) (q : ℕ) → q < p → store_bytes p bytes mem q ≡ mem q
store_bytes_below p bytes mem q h = ground (arith, store_bytes_at p bytes mem q)

pub load_bytes-store_bytes :
    (p : ℕ) (bytes : Bytes) (mem : Memory)
    → load_bytes p (length bytes) (store_bytes p bytes mem) ≡ bytes
unfolding load_bytes store_bytes
load_bytes-store_bytes p [] mem = refl
load_bytes-store_bytes p (b ∷ bytes) mem =
    ap₂ (λ x xs. x ∷ xs)
      (store_bytes_below (p + 1) bytes (put mem p b) p (omega arith) ∙ ground arith)
      (load_bytes-store_bytes (p + 1) bytes (put mem p b))

-- A copy out of a range that was just written, read back byte by byte.
pub copy_bytes_at :
    (dst src n : ℕ) (mem : Memory) (q : ℕ)
    → copy_bytes dst src n mem q
      ≡ (if leb dst q && ltb q (dst + n) then mem (src + (q - dst)) else mem q)
unfolding copy_bytes
copy_bytes_at dst src n mem q = ground (
  arith,
  store_bytes_at dst (load_bytes src n mem) mem q,
  length-load_bytes src n mem,
  get_or-load_bytes src n mem (q - dst),
)

-- The same two facts at an offset inside the range, and outside of it.
pub store_bytes-inside :
    (p : ℕ) (bytes : Bytes) (mem : Memory) (i : ℕ)
    → i < length bytes
    → store_bytes p bytes mem (p + i) ≡ get_or bytes i 0
store_bytes-inside p bytes mem i h =
    let e : p + i - p ≡ i = omega arith in store_bytes_at p bytes mem (p + i) ∙ rw e (ground arith)

pub store_bytes-outside :
    (p : ℕ) (bytes : Bytes) (mem : Memory) (q : ℕ)
    → (q < p) ⊎ (p + length bytes ≤ q)
    → store_bytes p bytes mem q ≡ mem q
store_bytes-outside p bytes mem q h = ground (arith, store_bytes_at p bytes mem q)

pub copy_bytes-inside :
    (dst src n : ℕ) (mem : Memory) (i : ℕ)
    → i < n
    → copy_bytes dst src n mem (dst + i) ≡ mem (src + i)
copy_bytes-inside dst src n mem i h =
    let e : dst + i - dst ≡ i = omega arith in
    copy_bytes_at dst src n mem (dst + i) ∙ rw e (ground arith)

pub copy_bytes-outside :
    (dst src n : ℕ) (mem : Memory) (q : ℕ)
    → (q < dst) ⊎ (dst + n ≤ q)
    → copy_bytes dst src n mem q ≡ mem q
copy_bytes-outside dst src n mem q h = ground (arith, copy_bytes_at dst src n mem q)

pub load_bytes-add :
    (p a b : ℕ) (mem : Memory)
    → load_bytes p (a + b) mem ≡ load_bytes p a mem ++ load_bytes (p + a) b mem
unfolding load_bytes
load_bytes-add p zero b mem = ap₂ (λ q n. load_bytes q n mem) (omega arith) (omega arith)
load_bytes-add p (suc a) b mem =
    let n : suc a + b ≡ suc (a + b) = omega arith in
    let q : p + 1 + a ≡ p + suc a = omega arith in
    rw (n, ← q) (ap (λ t. mem p ∷ t) (load_bytes-add (p + 1) a b mem))

-- A range that a write does not touch reads as before.
pub load_bytes-store_bytes_apart :
    (p n q : ℕ) (bytes : Bytes) (mem : Memory)
    → (p + n ≤ q) ⊎ (q + length bytes ≤ p)
    → load_bytes p n (store_bytes q bytes mem) ≡ load_bytes p n mem
unfolding load_bytes
load_bytes-store_bytes_apart p zero q bytes mem apart = refl
load_bytes-store_bytes_apart p (suc n) q bytes mem apart =
    ap₂ (λ x xs. x ∷ xs) (store_bytes-outside q bytes mem p (ground arith))
      (load_bytes-store_bytes_apart (p + 1) n q bytes mem (ground arith))
