-- ===== src/Loader/Table.antt =====
-- What a loaded library's table holds: each function of the C API reaches the library's function of
-- its own name.
use api_bridge.Base.{
  ℕ, ◌≡◌, refl, arith, ◌==◌, if◌then◌else◌, Option, none, some, List, [], ◌∷◌, ◌++◌, Option-cases,
  inl, inr, ◌∙◌,
}
use api_bridge.Text.{Text, codes}
use api_bridge.Memory.{Exception, standard, runtime_error, lookup, insert, lookup-insert}
use api_bridge.Api.Calls.{CodeCall, SizeCall}
use api_bridge.Loader.{
  Linker, Loader, Loading, Target, loaded, failed, call, load_symbols, load_library, via, c_code,
  c_size, forward_code, forward_size,
}
use api_bridge.Loader.Symbols.{Symbol, symbols, symbol_name, position}

-- The names that hebench/api_bridge/api.h gives to the functions.
abbrev pub code_name : CodeCall → Text
code_name (CodeCall.destroy_handle a) = codes "destroyHandle"
code_name (CodeCall.init_engine a b c) = codes "initEngine"
code_name (CodeCall.subscribe_benchmarks_count a b) = codes "subscribeBenchmarksCount"
code_name (CodeCall.subscribe_benchmarks a b c) = codes "subscribeBenchmarks"
code_name (CodeCall.get_workload_params_details a b c d) = codes "getWorkloadParamsDetails"
code_name (CodeCall.describe_benchmark a b c d e) = codes "describeBenchmark"
code_name (CodeCall.create_benchmark a b c d) = codes "createBenchmark"
code_name (CodeCall.init_benchmark a b) = codes "initBenchmark"
code_name (CodeCall.encode a b c) = codes "encode"
code_name (CodeCall.decode a b c) = codes "decode"
code_name (CodeCall.encrypt a b c) = codes "encrypt"
code_name (CodeCall.decrypt a b c) = codes "decrypt"
code_name (CodeCall.load a b c d) = codes "load"
code_name (CodeCall.store a b c d) = codes "store"
code_name (CodeCall.operate a b c d e) = codes "operate"

abbrev pub size_name : SizeCall → Text
size_name (SizeCall.get_scheme_name a b c d) = codes "getSchemeName"
size_name (SizeCall.get_scheme_security_name a b c d e) = codes "getSchemeSecurityName"
size_name (SizeCall.get_benchmark_description_ex a b c d e) = codes "getBenchmarkDescriptionEx"
size_name (SizeCall.get_error_description a b c d) = codes "getErrorDescription"
size_name (SizeCall.get_last_error_description a b c) = codes "getLastErrorDescription"

-- The pointer by which a call goes.
abbrev pub code_symbol : CodeCall → Symbol
code_symbol (CodeCall.destroy_handle a) = Symbol.destroy_handle
code_symbol (CodeCall.init_engine a b c) = Symbol.init_engine
code_symbol (CodeCall.subscribe_benchmarks_count a b) = Symbol.subscribe_benchmarks_count
code_symbol (CodeCall.subscribe_benchmarks a b c) = Symbol.subscribe_benchmarks
code_symbol (CodeCall.get_workload_params_details a b c d) = Symbol.get_workload_params_details
code_symbol (CodeCall.describe_benchmark a b c d e) = Symbol.describe_benchmark
code_symbol (CodeCall.create_benchmark a b c d) = Symbol.create_benchmark
code_symbol (CodeCall.init_benchmark a b) = Symbol.init_benchmark
code_symbol (CodeCall.encode a b c) = Symbol.encode
code_symbol (CodeCall.decode a b c) = Symbol.decode
code_symbol (CodeCall.encrypt a b c) = Symbol.encrypt
code_symbol (CodeCall.decrypt a b c) = Symbol.decrypt
code_symbol (CodeCall.load a b c d) = Symbol.load
code_symbol (CodeCall.store a b c d) = Symbol.store
code_symbol (CodeCall.operate a b c d e) = Symbol.operate

abbrev pub size_symbol : SizeCall → Symbol
size_symbol (SizeCall.get_scheme_name a b c d) = Symbol.get_scheme_name
size_symbol (SizeCall.get_scheme_security_name a b c d e) = Symbol.get_scheme_security_name
size_symbol (SizeCall.get_benchmark_description_ex a b c d e) = Symbol.get_benchmark_description_ex
size_symbol (SizeCall.get_error_description a b c d) = Symbol.get_error_description
size_symbol (SizeCall.get_last_error_description a b c) = Symbol.get_last_error_description

code_name_lem : (c : CodeCall) → symbol_name (code_symbol c) ≡ code_name c
unfolding symbol_name
code_name_lem (CodeCall.destroy_handle a) = refl
code_name_lem (CodeCall.init_engine a b c) = refl
code_name_lem (CodeCall.subscribe_benchmarks_count a b) = refl
code_name_lem (CodeCall.subscribe_benchmarks a b c) = refl
code_name_lem (CodeCall.get_workload_params_details a b c d) = refl
code_name_lem (CodeCall.describe_benchmark a b c d e) = refl
code_name_lem (CodeCall.create_benchmark a b c d) = refl
code_name_lem (CodeCall.init_benchmark a b) = refl
code_name_lem (CodeCall.encode a b c) = refl
code_name_lem (CodeCall.decode a b c) = refl
code_name_lem (CodeCall.encrypt a b c) = refl
code_name_lem (CodeCall.decrypt a b c) = refl
code_name_lem (CodeCall.load a b c d) = refl
code_name_lem (CodeCall.store a b c d) = refl
code_name_lem (CodeCall.operate a b c d e) = refl

size_name_lem : (c : SizeCall) → symbol_name (size_symbol c) ≡ size_name c
unfolding symbol_name
size_name_lem (SizeCall.get_scheme_name a b c d) = refl
size_name_lem (SizeCall.get_scheme_security_name a b c d e) = refl
size_name_lem (SizeCall.get_benchmark_description_ex a b c d e) = refl
size_name_lem (SizeCall.get_error_description a b c d) = refl
size_name_lem (SizeCall.get_last_error_description a b c) = refl

module _ {Lib F : Type 0} where
  pub c_code-via : (c : CodeCall) (l : Loader Lib F) → c_code c l ≡ via (code_symbol c) l c
  unfolding c_code forward_code
  c_code-via (CodeCall.destroy_handle a) l = refl
  c_code-via (CodeCall.init_engine a b c) l = refl
  c_code-via (CodeCall.subscribe_benchmarks_count a b) l = refl
  c_code-via (CodeCall.subscribe_benchmarks a b c) l = refl
  c_code-via (CodeCall.get_workload_params_details a b c d) l = refl
  c_code-via (CodeCall.describe_benchmark a b c d e) l = refl
  c_code-via (CodeCall.create_benchmark a b c d) l = refl
  c_code-via (CodeCall.init_benchmark a b) l = refl
  c_code-via (CodeCall.encode a b c) l = refl
  c_code-via (CodeCall.decode a b c) l = refl
  c_code-via (CodeCall.encrypt a b c) l = refl
  c_code-via (CodeCall.decrypt a b c) l = refl
  c_code-via (CodeCall.load a b c d) l = refl
  c_code-via (CodeCall.store a b c d) l = refl
  c_code-via (CodeCall.operate a b c d e) l = refl

  pub c_size-via : (c : SizeCall) (l : Loader Lib F) → c_size c l ≡ via (size_symbol c) l c
  unfolding c_size forward_size
  c_size-via (SizeCall.get_scheme_name a b c d) l = refl
  c_size-via (SizeCall.get_scheme_security_name a b c d e) l = refl
  c_size-via (SizeCall.get_benchmark_description_ex a b c d e) l = refl
  c_size-via (SizeCall.get_error_description a b c d) l = refl
  c_size-via (SizeCall.get_last_error_description a b c) l = refl

module _ {Lib F : Type 0} (k : Linker Lib F) (handle : Lib) (function : Symbol → F) where
  -- The table after the assignments of a list, and what it holds at a position.
  abbrev filled : List Symbol → List (ℕ × F) → List (ℕ × F)
  filled [] table = table
  filled (s ∷ rest) table = filled rest (insert (position s) (function s) table)

  abbrev held : ℕ → List Symbol → Option F → Option F
  held j [] old = old
  held j (s ∷ rest) old = held j rest (if j == position s then some (function s) else old)

  lookup-filled :
      (j : ℕ) (ss : List Symbol) (table : List (ℕ × F))
      → lookup j (filled ss table) ≡ held j ss (lookup j table)
  lookup-filled j [] table = refl
  lookup-filled j (s ∷ rest) table = ground (
    arith,
    lookup-filled j rest (insert (position s) (function s) table),
    lookup-insert (position s) j (function s) table,
  )

  held-symbols : (s : Symbol) (old : Option F) → held (position s) symbols old ≡ some (function s)
  unfolding position
  held-symbols Symbol.destroy_handle old = refl
  held-symbols Symbol.init_engine old = refl
  held-symbols Symbol.subscribe_benchmarks_count old = refl
  held-symbols Symbol.subscribe_benchmarks old = refl
  held-symbols Symbol.get_workload_params_details old = refl
  held-symbols Symbol.describe_benchmark old = refl
  held-symbols Symbol.create_benchmark old = refl
  held-symbols Symbol.init_benchmark old = refl
  held-symbols Symbol.encode old = refl
  held-symbols Symbol.decode old = refl
  held-symbols Symbol.encrypt old = refl
  held-symbols Symbol.decrypt old = refl
  held-symbols Symbol.load old = refl
  held-symbols Symbol.store old = refl
  held-symbols Symbol.operate old = refl
  held-symbols Symbol.get_scheme_name old = refl
  held-symbols Symbol.get_scheme_security_name old = refl
  held-symbols Symbol.get_benchmark_description_ex old = refl
  held-symbols Symbol.get_error_description old = refl
  held-symbols Symbol.get_last_error_description old = refl

  module _ (there : (s : Symbol) → k.dlsym handle (symbol_name s) ≡ some (function s)) where
    load_symbols_lem :
        (ss : List Symbol) (l : Loader Lib F)
        → load_symbols k handle ss l ≡ loaded (record l { functions = filled ss l.functions })
    unfolding load_symbols
    load_symbols_lem [] l = refl
    load_symbols_lem (s ∷ rest) l = rw (there s, load_symbols) (load_symbols_lem rest _)

    abbrev after : Loader Lib F → Loader Lib F
    after l = record l { lib = some handle; functions = filled symbols l.functions }

    via-after :
        {C : Type 0} (s : Symbol) (l : Loader Lib F) (c : C)
        → via s (after l) c ≡ call (function s) c
    unfolding via
    via-after s l c =
        let found =
          lookup-filled (position s) symbols l.functions
          ∙ held-symbols s (lookup (position s) l.functions) in
        rw (found, via) refl

-- A call, with its arguments, of the function that a look-up found.
abbrev pub reached : {F C : Type 0} → Option F → C → Target F C
reached none c = Target.undefined
reached (some f) c = call f c

module _ {Lib F : Type 0} where
  -- If the linker opens the library and finds each of the functions in it, then loading succeeds,
  -- whatever was loaded before, closes nothing, and each function of the C API calls the library's
  -- function of its own name with its arguments.
  pub load_library-reaches :
      (k : Linker Lib F) (path : Text) (handle : Lib) (function : Symbol → F) (l : Loader Lib F)
      → k.dlopen path ≡ some handle
      → ((s : Symbol) → k.dlsym handle (symbol_name s) ≡ some (function s))
      → (m : Loader Lib F) × (load_library k path l ≡ loaded m)
        × (m.lib ≡ some handle)
        × (m.closed ≡ l.closed)
        × ((c : CodeCall) → c_code c m ≡ reached (k.dlsym handle (code_name c)) c)
        × ((c : SizeCall) → c_size c m ≡ reached (k.dlsym handle (size_name c)) c)
  unfolding load_library
  load_library-reaches k path handle function l opens there = (
    after k handle function there l,
    rw (opens, load_library) (load_symbols_lem k handle function there symbols _),
    refl,
    refl,
    λ c. ground (
      arith,
      there (code_symbol c),
      code_name_lem c,
      c_code-via c (after k handle function there l),
      via-after k handle function there (code_symbol c) l c,
    ),
    λ c. ground (
      arith,
      there (size_symbol c),
      size_name_lem c,
      c_size-via c (after k handle function there l),
      via-after k handle function there (size_symbol c) l c,
    ),
  )

  -- If the linker cannot open the library, loading throws a runtime error with the linker's text
  -- and changes nothing.
  pub load_library-fails :
      (k : Linker Lib F) (path : Text) (l : Loader Lib F)
      → k.dlopen path ≡ none
      → load_library k path l ≡ failed (standard runtime_error k.dlerror) l
  unfolding load_library
  load_library-fails k path l fails = rw (fails, load_library) refl

  abbrev pub FailsToLoad : Exception → Loading Lib F → Type 0
  FailsToLoad e (loaded m) = ⊥
  FailsToLoad e (failed x m) = x ≡ e

  -- If a symbol of the list is missing, the assignments stop with a runtime error of the linker's
  -- text, whatever the symbols before and after it.
  pub load_symbols-misses :
      (k : Linker Lib F) (handle : Lib) (before after : List Symbol) (s : Symbol) (l : Loader Lib F)
      → k.dlsym handle (symbol_name s) ≡ none
      → FailsToLoad
          (standard runtime_error k.dlerror)
          (load_symbols k handle (before ++ s ∷ after) l)
  unfolding load_symbols
  load_symbols-misses k handle [] after s l missing = rw (missing, load_symbols) refl
  load_symbols-misses k handle (t ∷ before) after s l missing =
      elim (Option-cases (k.dlsym handle (symbol_name t))) [
        | inl nothing ↦ rw (nothing, load_symbols) refl
        | inr (f, there) ↦
            rw (there, load_symbols) (load_symbols-misses k handle before after s _ missing)
      ]
