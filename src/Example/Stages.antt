-- ===== src/Example/Stages.antt =====
-- The stages of the example benchmark, of api_bridge_example_backend/src/ex_benchmark.cpp: what each
-- hands to the next.
use api_bridge.Base.{
  ℕ, zero, suc, ◌+◌, ◌<◌, ◌≡◌, refl, sym, subst, ◌∙◌, ap, arith, some, List, [], ◌∷◌, get_elem?,
  bit_and, bit_or, ltb, if◌then◌else◌, length, ◌*◌,
}
use api_bridge.Types.{Address, Handle, ParameterIndexer}
use api_bridge.Types.Tag
use api_bridge.Memory.{World, Outcome, returns, lookup, Benchmark, benchmark, indexers}
use api_bridge.Engine.Handles.{create_handle, retrieve_from_handle}
use api_bridge.Engine.Handles.Sound.{IsSound}
use api_bridge.Engine.Handles.Sharing.{Holds, retrieve_from_handle-Holds}
use api_bridge.Engine.Handles.Caller.{IsGiven, create_handle-IsGiven}
use api_bridge.Example.{Platform}
use api_bridge.Example.Matrix.{Matrix, product}
use api_bridge.Example.Workload.{num_operands}
use api_bridge.Example.Benchmark.{
  Payload, tag_encode_output, tag_encrypt_output, tag_decrypt_output, tag_load_output,
  tag_store_output, tag_operate_output, encrypt, decrypt, operate, indexers_loop,
}

-- A handle of an object with these tags.
abbrev pub HasTags : Handle → ℕ → Type 0
HasTags h tags = h.tag ≡ bit_or Tag.engine_object tags

-- A stage's result: a handle with these tags that holds this value; the memory is sound, every
-- handle keeps its value and the other objects stay as they were.
abbrev pub Gives : Address → ℕ → Payload → World Payload → Outcome Payload Handle → Type 0
Gives this tags value w r =
    (g : Handle) × (v : World Payload) × (r ≡ returns g v) × IsGiven this tags value w g v

-- An indexer of one value at position 0.
abbrev pub one_value : ParameterIndexer
one_value = record { value_index = 0; batch_size = 1 }

pub indexers_pass :
    (p : Address) (array : List ParameterIndexer) (left i : ℕ) (w : World Payload)
    → lookup p w.heap ≡ some (indexers array)
    → ((j : ℕ) → j < i + left → get_elem? array j ≡ some one_value)
    → indexers_loop p left i w ≡ returns tt w
unfolding indexers_loop
indexers_pass p array zero i w at good = refl
indexers_pass p array (suc left) i w at good = ground (
  arith,
  at,
  good i (omega arith),
  indexers_pass p array left (i + 1) w at (λ j lt. good j (omega arith)),
)

-- Reading a handle with exactly these tags.
pub reads :
    (this : Address) (tags : ℕ) (value : Payload) (h : Handle) (w : World Payload)
    → bit_and tags Tag.mask_reserved_bits ≡ 0
    → bit_and (bit_or Tag.engine_object tags) tags ≡ tags
    → Holds this value h w
    → HasTags h tags
    → retrieve_from_handle h tags w ≡ returns value w
reads this tags value h w clear has o tagged =
    retrieve_from_handle-Holds this value h tags w o clear
      (ap (λ (t : ℕ). bit_and t tags) tagged ∙ has)

pub creates :
    (this : Address) (size tags : ℕ) (value : Payload) (w : World Payload)
    → IsSound w
    → bit_and tags Tag.mask_reserved_bits ≡ 0
    → Gives this tags value w (create_handle this size tags value w)
creates this size tags value w sound clear =
    create_handle-IsGiven this size tags value w sound clear

module _ (platform : Platform) (this : Address) (bench : Benchmark) (w : World Payload)
    (sound : IsSound w) (at : lookup this w.heap ≡ some (benchmark bench)) where
  encrypt_runs :
      (h : Handle) (mats : Payload)
      → retrieve_from_handle h tag_encode_output w ≡ returns mats w
      → encrypt platform this h w
        ≡ create_handle bench.engine
            (platform.sizeof_matrix * length mats)
            tag_encrypt_output
            mats
            w
  unfolding encrypt
  encrypt_runs h mats read = ground (arith, at, read)

  decrypt_runs :
      (h : Handle) (mats : Payload)
      → retrieve_from_handle h tag_store_output w ≡ returns mats w
      → decrypt platform this h w
        ≡ create_handle bench.engine
            (platform.sizeof_matrix * length mats)
            tag_decrypt_output
            mats
            w
  unfolding decrypt
  decrypt_runs h mats read = ground (arith, at, read)

  abbrev multiplied : Matrix → Matrix → Payload
  multiplied m0 m1 = product platform.double_add platform.double_mul m0 m1 ∷ []

  operate_runs :
      (h : Handle) (m0 m1 : Matrix) (rest : Payload) (p count : ℕ)
      → retrieve_from_handle h tag_load_output w ≡ returns (m0 ∷ m1 ∷ rest) w
      → indexers_loop p (if ltb count num_operands then count else num_operands) 0 w ≡ returns tt w
      → operate platform this h p count w
        ≡ create_handle bench.engine
            (platform.sizeof_matrix * 1)
            tag_operate_output
            (multiplied m0 m1)
            w
  unfolding operate
  operate_runs h m0 m1 rest p count read indexed = ground (arith, at, read, indexed)

-- In a sound memory, encrypting, by a benchmark that is alive, a handle of encoded data gives a
-- handle of encrypted data with the same value.
pub encrypt-Gives :
    (platform : Platform) (this : Address) (bench : Benchmark) (h : Handle) (mats : Payload)
    (w : World Payload)
    → IsSound w
    → lookup this w.heap ≡ some (benchmark bench)
    → Holds bench.engine mats h w
    → HasTags h tag_encode_output
    → Gives bench.engine tag_encrypt_output mats w (encrypt platform this h w)
encrypt-Gives platform this bench h mats w sound at o tags =
    subst (Gives bench.engine tag_encrypt_output mats w)
      (sym (
        encrypt_runs platform this bench w sound at h mats
          (reads bench.engine tag_encode_output mats h w refl refl o tags)))
      (creates bench.engine (platform.sizeof_matrix * length mats) tag_encrypt_output mats w sound
        refl)

-- In a sound memory, decrypting, by a benchmark that is alive, a handle of stored data gives a
-- handle of decrypted data with the same value.
pub decrypt-Gives :
    (platform : Platform) (this : Address) (bench : Benchmark) (h : Handle) (mats : Payload)
    (w : World Payload)
    → IsSound w
    → lookup this w.heap ≡ some (benchmark bench)
    → Holds bench.engine mats h w
    → HasTags h tag_store_output
    → Gives bench.engine tag_decrypt_output mats w (decrypt platform this h w)
decrypt-Gives platform this bench h mats w sound at o tags =
    subst (Gives bench.engine tag_decrypt_output mats w)
      (sym (
        decrypt_runs platform this bench w sound at h mats
          (reads bench.engine tag_store_output mats h w refl refl o tags)))
      (creates bench.engine (platform.sizeof_matrix * length mats) tag_decrypt_output mats w sound
        refl)

-- In a sound memory, operating, by a benchmark that is alive, on a loaded handle of two matrices or
-- more, with indexers of which the first two name one value at position 0, gives a handle of the
-- product of the first two; the handle has the tag of results and every handle keeps its value.
pub operate-Gives :
    (platform : Platform) (this : Address) (bench : Benchmark) (h : Handle) (m0 m1 : Matrix)
    (rest : Payload) (p count : ℕ) (array : List ParameterIndexer) (w : World Payload)
    → IsSound w
    → lookup this w.heap ≡ some (benchmark bench)
    → Holds bench.engine (m0 ∷ m1 ∷ rest) h w
    → HasTags h tag_load_output
    → lookup p w.heap ≡ some (indexers array)
    → ((j : ℕ) → j < 2 → get_elem? array j ≡ some one_value)
    → Gives bench.engine tag_operate_output
        (product platform.double_add platform.double_mul m0 m1 ∷ [])
        w
        (operate platform this h p count w)
operate-Gives platform this bench h m0 m1 rest p count array w sound at o tags is_array good =
    subst
      (Gives bench.engine tag_operate_output
        (product platform.double_add platform.double_mul m0 m1 ∷ []) w)
      (sym (
        operate_runs platform this bench w sound at h m0 m1 rest p count
          (reads bench.engine tag_load_output (m0 ∷ m1 ∷ rest) h w refl refl o tags)
          (indexers_pass p array (if ltb count num_operands then count else num_operands) 0 w
            is_array (λ j lt. good j (ground arith)))))
      (creates bench.engine (platform.sizeof_matrix * 1) tag_operate_output _ w sound refl)
