-- ===== src/Engine/Invariant.antt =====
-- The member functions of `BaseEngine` of hebench/api_bridge/src/engine.cpp keep the invariant of
-- reference-counted handles, whatever their arguments, whether they return or throw.
use api_bridge.Base.{ℕ, zero, suc, ◌+◌, List, ltb, length, not, ◌==◌, ◌++◌}
use api_bridge.Text.{Text, codes, to_string}
use api_bridge.Types.{Address, Handle, ErrorCode, WorkloadParam, ecode_critical_error}
use api_bridge.Memory.{as_handles, as_description, as_workload_params}
use api_bridge.Backend.{Sizes}
use api_bridge.Utilities.{copy_string}
use api_bridge.Engine.{
  engine_error, set_last_error_text, get_error_desc, subscribe_loop, subscribe_benchmarks,
}
use api_bridge.Engine.Benchmarks.{
  get_workload_params_count, get_default_workload_params_count, default_params_loop, copy_params,
  describe_benchmark,
}
use api_bridge.Engine.Handles.Safe.{
  IsSafe, safe_rules, bind-IsSafe, then-IsSafe, deref-IsSafe, index-IsSafe, throw_if-IsSafe,
  when-IsSafe,
}
use api_bridge.Engine.Handles.Writes.{write_rules, assign_handles}

module _ {P : Type 0} where
  -- Soundness does not read the static members.
  pub set_last_error_text-IsSafe :
      (code : ErrorCode) (text : Text) → IsSafe {P = P} (set_last_error_text code text)
  unfolding set_last_error_text
  set_last_error_text-IsSafe code text = record {
    ends = λ w v. record {
      fresh = v.fresh;
      null_free = v.null_free;
      started = v.started;
      counted = v.counted;
      owned = v.owned;
      alive = v.alive;
    };
  }

  pub get_error_desc-IsSafe : (code : ErrorCode) → IsSafe {P = P} (get_error_desc code)
  unfolding get_error_desc
  get_error_desc-IsSafe code = search safe_rules depth 5

  pub copy_string-IsSafe :
      (dst : Address) (size : ℕ) (src : Text) → IsSafe {P = P} (copy_string dst size src)
  unfolding copy_string
  copy_string-IsSafe dst size src = search write_rules depth 12

  subscribe_loop-IsSafe :
      (sizes : Sizes) (descriptors : List Address) (p left i : ℕ)
      → IsSafe {P = P} (subscribe_loop sizes descriptors p left i)
  unfolding subscribe_loop
  subscribe_loop-IsSafe sizes descriptors p zero i = search safe_rules depth 5
  subscribe_loop-IsSafe sizes descriptors p (suc left) i =
      let rest = subscribe_loop-IsSafe sizes descriptors p left (i + 1) in
      bind-IsSafe (deref-IsSafe as_handles p) λ array.
        bind-IsSafe (index-IsSafe descriptors i) λ p_bd.
          bind-IsSafe (deref-IsSafe as_description p_bd)
            λ d. then-IsSafe (index-IsSafe array i) (then-IsSafe (assign_handles p _) rest)

  pub subscribe_benchmarks-IsSafe :
      (sizes : Sizes) (this p count : ℕ) → IsSafe {P = P} (subscribe_benchmarks sizes this p count)
  unfolding subscribe_benchmarks
  subscribe_benchmarks-IsSafe sizes this p count =
      search (subscribe_loop-IsSafe, safe_rules) depth 14

  pub get_workload_params_count-IsSafe :
      (this : Address) (h : Handle) → IsSafe {P = P} (get_workload_params_count this h)
  unfolding get_workload_params_count
  get_workload_params_count-IsSafe this h = search safe_rules depth 14

  pub get_default_workload_params_count-IsSafe :
      (this : Address) (h : Handle) → IsSafe {P = P} (get_default_workload_params_count this h)
  unfolding get_default_workload_params_count
  get_default_workload_params_count-IsSafe this h = search safe_rules depth 14

  copy_params-IsSafe : (src : List WorkloadParam) (p : Address) → IsSafe {P = P} (copy_params src p)
  copy_params-IsSafe src p = search write_rules depth 12

  default_params_loop-IsSafe :
      (sets : List (List WorkloadParam)) (p left i : ℕ)
      → IsSafe {P = P} (default_params_loop sets p left i)
  unfolding default_params_loop
  default_params_loop-IsSafe sets p zero i = search safe_rules depth 5
  default_params_loop-IsSafe sets p (suc left) i =
      let rest = default_params_loop-IsSafe sets p left (i + 1) in
      bind-IsSafe (deref-IsSafe as_workload_params p) λ array.
        bind-IsSafe (index-IsSafe array i) λ room. bind-IsSafe (index-IsSafe sets i) λ src.
          then-IsSafe
            (throw_if-IsSafe (ltb room.count (length src)) (
              engine_error "describeBenchmark" 173
                (codes "Insufficient space allocated for default set of parameters: "
                  ++ to_string i)
                ecode_critical_error))
            (then-IsSafe (when-IsSafe (not (length src == 0)) (copy_params-IsSafe src room.params))
              rest)

  pub describe_benchmark-IsSafe :
      (this : Address) (h : Handle) (p q count : ℕ)
      → IsSafe {P = P} (describe_benchmark this h p q count)
  unfolding describe_benchmark
  describe_benchmark-IsSafe this h p q count =
      search (default_params_loop-IsSafe, write_rules) depth 16
