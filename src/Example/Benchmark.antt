-- ===== src/Example/Benchmark.antt =====
-- `ExampleBenchmark` of api_bridge_example_backend/src/ex_benchmark.cpp: the data of a product
-- through its stages. A handle's payload is a vector of matrices.
use api_bridge.Base.{
  ℕ, zero, suc, ◌+◌, ◌*◌, ◌/◌, not, ◌&&◌, ◌||◌, ◌++◌, ltb, leb, ◌==◌, if◌then◌else◌, length, drop,
  replicate, set, none, some, List, [], ◌∷◌, bit_and,
}
use Prim.Native.String.{String}
use api_bridge.Text.{Text, codes}
use api_bridge.Types.{
  Address, null, ecode_invalid_args, Handle, null_handle, BenchmarkDescriptor, DataPackCollection,
}
use api_bridge.Memory.{
  Exception, M, ◌>>=◌, ◌>>◌, pure, throw_if, when, deref, assign, defined, index,
  as_pack_collection, as_data_packs, as_handles, as_doubles, as_indexers, handles, doubles,
}
use api_bridge.Engine.Handles.{create_handle, retrieve_from_handle, duplicate_handle_as}
use api_bridge.Benchmark.{find_data_pack, get_engine}
use api_bridge.Example.{Platform, example_error}
use api_bridge.Example.Matrix.{Matrix, dim, read_rows, write_rows, product}
use api_bridge.Example.Workload.{num_operands}

abbrev pub tag_encode_output : ℕ
tag_encode_output = 0x10

abbrev pub tag_decrypt_output : ℕ
tag_decrypt_output = 0x80

abbrev pub tag_encrypt_output : ℕ
tag_encrypt_output = 0x40

abbrev pub tag_load_output : ℕ
tag_load_output = 0x100

abbrev pub tag_store_output : ℕ
tag_store_output = 0x200

abbrev pub tag_operate_output : ℕ
tag_operate_output = 0x400

abbrev pub Payload : Type 0
Payload = List Matrix

abbrev pub invalid_args : String → ℕ → Text → Exception
invalid_args function line message =
    example_error "ExampleBenchmark" function line message ecode_invalid_args

unfoldable pub initialize : Address → BenchmarkDescriptor → M Payload (Unit {0})
initialize this bench_desc_concrete = pure tt

-- A round of the loop of `encode`: the matrix of one parameter.
unfoldable pub encode_param : DataPackCollection → ℕ → M Payload Matrix
encode_param p_parameters param_i = do
  parameter ← find_data_pack p_parameters param_i
  throw_if (parameter.p_buffers == null)
      (invalid_args "encode" 150 (codes "Invalid empty samples detected in parameter pack."))
  buffers ← deref as_handles parameter.p_buffers
  sample ← index buffers 0
  throw_if (sample.p == null)
      (invalid_args "encode" 150 (codes "Invalid empty samples detected in parameter pack."))
  row ← deref as_doubles sample.p
  defined (read_rows dim dim row)

-- The loop, at `param_i` with `left` rounds left.
unfoldable pub encode_loop : DataPackCollection → ℕ → ℕ → M Payload Payload
encode_loop p_parameters zero param_i = pure []
encode_loop p_parameters (suc left) param_i = do
  mat ← encode_param p_parameters param_i
  rest ← encode_loop p_parameters left (param_i + 1)
  pure (mat ∷ rest)

-- A round of the loop of `decode`: a matrix to the buffer of one pack.
unfoldable pub decode_param : Matrix → Address → ℕ → M Payload (Unit {0})
decode_param mat p_data_packs param_i = do
  packs ← deref as_data_packs p_data_packs
  native_param ← index packs param_i
  when (ltb 0 native_param.buffer_count) do
    buffers ← deref as_handles native_param.p_buffers
    native_sample ← index buffers 0
    when (ltb 0 (native_sample.size / 8)) do
      target ← deref as_doubles native_sample.p
      written ← defined (write_rows mat 0 (native_sample.size / 8) target)
      assign as_doubles native_sample.p (doubles written)

-- The loop, on the matrices that are left, with `left` rounds at most. The address of a pack is null
-- only if it is the first one at a null pointer, and is then skipped.
unfoldable pub decode_loop : Payload → Address → ℕ → ℕ → M Payload (Unit {0})
unfolding decode_param
decode_loop [] p_data_packs left param_i = pure tt
decode_loop (mat ∷ mats) p_data_packs zero param_i = pure tt
decode_loop (mat ∷ mats) p_data_packs (suc left) param_i = do
  when (not ((p_data_packs == null) && (param_i == 0))) (decode_param mat p_data_packs param_i)
  decode_loop mats p_data_packs left (param_i + 1)

-- The loop of `operate` that validates the indexers, at `i` with `left` rounds left.
unfoldable pub indexers_loop : Address → ℕ → ℕ → M Payload (Unit {0})
indexers_loop p_param_indexers zero i = pure tt
indexers_loop p_param_indexers (suc left) i = do
  array ← deref as_indexers p_param_indexers
  indexer ← index array i
  throw_if (not (indexer.value_index == 0) || not (indexer.batch_size == 1)) (
      invalid_args "operate" 340
        (codes "Invalid parameter indexer. Expected index 0 and batch size of 1."))
  indexers_loop p_param_indexers left (i + 1)

unfoldable pub decode : Address → Handle → Address → M Payload (Unit {0})
unfolding decode_loop
decode this encoded_data p_native = do
  get_engine this
  local_encoded_data ← retrieve_from_handle encoded_data tag_decrypt_output
  native ← deref as_pack_collection p_native
  decode_loop local_encoded_data native.p_data_packs native.pack_count 0

module _ (platform : Platform) where
  unfoldable pub encode : Address → Address → M Payload Handle
  unfolding encode_loop encode_param
  encode this p_parameters = do
    parameters ← deref as_pack_collection p_parameters
    throw_if (not (parameters.pack_count == num_operands)) (
        invalid_args "encode" 134
          (codes "Invalid number of parameters detected in parameter pack. Expected 2."))
    mats ← encode_loop parameters parameters.pack_count 0
    this_engine ← get_engine this
    create_handle this_engine platform.sizeof_vector tag_encode_output mats

  unfoldable pub encrypt : Address → Handle → M Payload Handle
  encrypt this encoded_data = do
    this_engine ← get_engine this
    encrypted_data ← retrieve_from_handle encoded_data tag_encode_output
    create_handle this_engine (platform.sizeof_matrix * length encrypted_data) tag_encrypt_output
        encrypted_data

  unfoldable pub decrypt : Address → Handle → M Payload Handle
  decrypt this encrypted_data = do
    this_engine ← get_engine this
    decrypted_data ← retrieve_from_handle encrypted_data tag_store_output
    create_handle this_engine (platform.sizeof_matrix * length decrypted_data) tag_decrypt_output
        decrypted_data

  unfoldable pub operate : Address → Handle → Address → ℕ → M Payload Handle
  unfolding indexers_loop
  operate this h_remote_packed p_param_indexers indexers_count = do
    let min_indexers_count =
        if ltb indexers_count num_operands then indexers_count else num_operands
    indexers_loop p_param_indexers min_indexers_count 0
    this_engine ← get_engine this
    mats ← retrieve_from_handle h_remote_packed tag_load_output
    m0 ← index mats 0
    m1 ← index mats 1
    let result_vector = product platform.double_add platform.double_mul m0 m1 ∷ []
    create_handle this_engine (platform.sizeof_matrix * length result_vector) tag_operate_output
        result_vector

unfoldable pub load : Address → Address → ℕ → M Payload Handle
load this p_local_data count = do
  throw_if (not (count == 1))
      (invalid_args "load" 279 (codes "Invalid number of handles. Expected 1."))
  throw_if (p_local_data == null)
      (invalid_args "load" 282 (codes "Invalid null array of handles: \"p_local_data\""))
  array ← deref as_handles p_local_data
  h ← index array 0
  let expected_tag =
      if bit_and h.tag tag_encode_output == tag_encode_output
      then tag_encode_output
      else tag_encrypt_output
  this_engine ← get_engine this
  duplicate_handle_as this_engine h tag_load_output expected_tag

unfoldable pub store : Address → Handle → Address → ℕ → M Payload (Unit {0})
store this remote_data p_local_data count = do
  throw_if (ltb 0 count && (p_local_data == null))
      (invalid_args "store" 303 (codes "Invalid null array of handles: \"p_local_data\""))
  when (ltb 0 count) do
    array ← deref as_handles p_local_data
    defined (if leb count (length array) then some tt else none)
    assign as_handles p_local_data (handles (replicate count null_handle ++ drop count array))
    this_engine ← get_engine this
    h ← duplicate_handle_as this_engine remote_data tag_store_output tag_operate_output
    cleared ← deref as_handles p_local_data
    assign as_handles p_local_data (handles (set cleared 0 h))
