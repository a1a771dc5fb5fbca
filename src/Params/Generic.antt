-- ===== src/Params/Generic.antt =====
-- The class `Generic` of hebench/api_bridge/cpp/workload_params.hpp: `n`, `m`, then `n` input
-- lengths and `m` result lengths. Sums of indices are in `uint64_t` and wrap.
use api_bridge.Base.{ℕ, zero, suc, ◌+◌, ◌%◌, ◌^◌, ◌++◌, ltb, leb}
use api_bridge.Text.{Text, codes, to_string}
use api_bridge.Memory.{Exception, standard, out_of_range}
use api_bridge.Params.{
  Common, Result, ok, ◌>>=◌, ◌>>◌, throw_if, common, set_named_uint64, get, put, validate,
}

abbrev pub u64 : ℕ → ℕ
u64 n = n % 2 ^ 64

abbrev pub n : Common → Result ℕ
n = get 0

abbrev pub m : Common → Result ℕ
m = get 1

-- The text of the exception, for the function of that name.
abbrev pub index_error : Text → ℕ → ℕ → Exception
index_error function index bound = standard out_of_range (
    function
    ++ (codes ": Index out of range; "
        ++ (to_string index ++ (codes ", expected less than " ++ (to_string bound ++ codes ".")))))

-- The `const` accessor, which tests `index > n()`.
unfoldable pub length_input_param : ℕ → Common → Result ℕ
length_input_param index w_params = do
  bound ← n w_params
  throw_if (ltb bound index) (index_error (codes "length_InputParam") index bound)
  get (u64 (index + 2)) w_params

-- The accessor that returns a reference, as a write through it; it tests `index >= n()`.
unfoldable pub put_length_input_param : ℕ → ℕ → Common → Result Common
put_length_input_param index value w_params = do
  bound ← n w_params
  throw_if (leb bound index) (index_error (codes "length_InputParam") index bound)
  put (u64 (index + 2)) value w_params

unfoldable pub length_result_component : ℕ → Common → Result ℕ
length_result_component index w_params = do
  bound ← m w_params
  throw_if (leb bound index) (index_error (codes "length_ResultComponent") index bound)
  inputs ← n w_params
  get (u64 (u64 (index + inputs) + 2)) w_params

unfoldable pub put_length_result_component : ℕ → ℕ → Common → Result Common
put_length_result_component index value w_params = do
  bound ← m w_params
  throw_if (leb bound index) (index_error (codes "length_ResultComponent") index bound)
  inputs ← n w_params
  put (u64 (u64 (index + inputs) + 2)) value w_params

-- A constructor's loop at round `i`, with `left` rounds left: one length of 1 in each.
unfoldable pub set_lengths : ℕ → ℕ → ℕ → Text → Common → Result Common
set_lengths zero i base name w_params = ok w_params
set_lengths (suc left) i base name w_params = do
  next ← set_named_uint64 (u64 (base + i)) 1 (name ++ to_string i) w_params
  set_lengths left (i + 1) base name next

unfoldable pub generic : ℕ → ℕ → Result Common
unfolding set_lengths
generic inputs results = do
  a ← set_named_uint64 0 inputs (codes "n") (common (u64 (u64 (inputs + results) + 2)))
  b ← set_named_uint64 1 results (codes "m") a
  c ← set_lengths inputs 0 2 (codes "length_InputParam") b
  set_lengths results 0 (u64 (2 + inputs)) (codes "length_ResultComponent") c

unfoldable pub validate_params : Common → Result (Unit {0})
validate_params w_params = do
  inputs ← n w_params
  results ← m w_params
  validate (u64 (u64 (inputs + results) + 2)) w_params

unfoldable pub generic_from : Common → Result Common
unfolding validate_params
generic_from w_params = do validate_params w_params; ok w_params
