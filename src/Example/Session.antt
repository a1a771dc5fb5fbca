-- ===== src/Example/Session.antt =====
-- A client's session on the example backend: the calls of the C API that take the samples of two
-- matrices through hebench/api_bridge/src/main.cpp to the benchmark of
-- api_bridge_example_backend/src/ex_benchmark.cpp and bring back the product.
pub mod Delivers
pub mod Encodes
pub mod Stores
pub mod Squares
pub mod Ready
pub mod Steps
pub mod Product
use api_bridge.Base.{ℕ, List, ◌==◌}
use api_bridge.Types.{Address, ErrorCode, ecode_success, Handle}
use api_bridge.Memory.{branch, M, ◌>>=◌, pure, deref, index, as_handles}
use api_bridge.Example.{Platform}
use api_bridge.Example.Benchmark.{Payload}
use api_bridge.Example.Backend.{example}
use api_bridge.Api.Benchmarks

-- The client's cells for handles.
pub data Slot : Type 0 where
  plaintext ciphertext remote result local decrypted : Slot

-- Where a client has its arguments and its results.
pub record Places : Type 0 where
  pub h_benchmark : Handle
  pub p_parameters : Address
  pub cell : Slot → Address
  pub p_param_indexers : Address
  pub p_native : Address
  pub p_buffer : Address

-- A call, and what follows if it succeeds.
infixr 5 ◌then◌
abbrev pub ◌then◌ : M Payload ErrorCode → M Payload ErrorCode → M Payload ErrorCode
m then k = m >>= λ code. branch (code == ecode_success) k (pure code)

-- The handle at an address.
abbrev pub read_handle : Address → M Payload Handle
read_handle p = do array ← deref as_handles p; index array 0

abbrev pub with_handle : Address → (Handle → M Payload ErrorCode) → M Payload ErrorCode
with_handle p f = read_handle p >>= f

-- The session, from its end.
module _ (platform : Platform) (c : Places) where
  abbrev pub decoding : M Payload ErrorCode
  decoding =
      with_handle (c.cell Slot.decrypted)
        λ h. Benchmarks.decode (example platform) c.h_benchmark h c.p_native

  abbrev pub decrypting : M Payload ErrorCode
  decrypting =
      (with_handle (c.cell Slot.local)
        λ h. Benchmarks.decrypt (example platform) c.h_benchmark h (c.cell Slot.decrypted))
      then decoding

  abbrev pub storing : M Payload ErrorCode
  storing =
      (with_handle (c.cell Slot.result)
        λ h. Benchmarks.store (example platform) c.h_benchmark h (c.cell Slot.local) 1)
      then decrypting

  abbrev pub operating : M Payload ErrorCode
  operating =
      (with_handle (c.cell Slot.remote) λ h.
        Benchmarks.operate (example platform) c.h_benchmark h c.p_param_indexers 2
          (c.cell Slot.result))
      then storing

  abbrev pub loading : M Payload ErrorCode
  loading =
      Benchmarks.load (example platform) c.h_benchmark (c.cell Slot.ciphertext) 1
        (c.cell Slot.remote)
      then operating

  abbrev pub encrypting : M Payload ErrorCode
  encrypting =
      (with_handle (c.cell Slot.plaintext)
        λ h. Benchmarks.encrypt (example platform) c.h_benchmark h (c.cell Slot.ciphertext))
      then loading

  abbrev pub session : M Payload ErrorCode
  session =
      Benchmarks.encode (example platform) c.h_benchmark c.p_parameters (c.cell Slot.plaintext)
      then encrypting
