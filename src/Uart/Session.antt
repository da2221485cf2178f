-- ===== src/Uart/Session.antt =====
-- The debug protocol: what a host asks, what it gets to hear, and what becomes of the memory.
use cheshire_can.Prelude.{ℕ, ◌<◌, ◌^◌, List, [], ◌∷◌, ◌++◌, length}
use cheshire_can.Word.{le_bytes}
use cheshire_can.Machine.Store.{Bytes, Memory, load_bytes, store_bytes}
use cheshire_can.Uart.Strings.{octets}

-- READ with an address and a length, WRITE with an address and a string.
pub data Request : Type 0 where
  fetch : ℕ → ℕ → Request
  deposit : ℕ → Bytes → Request

-- Addresses and lengths fit 64 bits.
abbrev pub IsRequest : Request → Type 0
IsRequest (fetch addr len) = (addr < 2 ^ 64) × (len < 2 ^ 64)
IsRequest (deposit addr bytes) = (addr < 2 ^ 64) × (length bytes < 2 ^ 64)

abbrev pub encode : Request → Bytes
encode (fetch addr len) = 0x11 ∷ (le_bytes 8 addr ++ le_bytes 8 len)
encode (deposit addr bytes) = 0x12 ∷ (le_bytes 8 addr ++ (le_bytes 8 (length bytes) ++ bytes))

abbrev pub reply : Request → Memory → Bytes
reply (fetch addr len) m = 0x06 ∷ (octets (load_bytes addr len m) ++ 0x04 ∷ [])
reply (deposit addr bytes) m = 0x06 ∷ 0x04 ∷ []

abbrev pub effect : Request → Memory → Memory
effect (fetch addr len) m = m
effect (deposit addr bytes) m = store_bytes addr bytes m

abbrev pub AreRequests : List Request → Type 0
AreRequests [] = Unit
AreRequests (request ∷ requests) = IsRequest request × AreRequests requests

abbrev pub encode_all : List Request → Bytes
encode_all [] = []
encode_all (request ∷ requests) = encode request ++ encode_all requests

abbrev pub replies : List Request → Memory → Bytes
replies [] m = []
replies (request ∷ requests) m = reply request m ++ replies requests (effect request m)

abbrev pub effects : List Request → Memory → Memory
effects [] m = m
effects (request ∷ requests) m = effects requests (effect request m)
