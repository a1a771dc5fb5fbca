-- ===== src/Loader/Unload.antt =====
-- What unloading a library leaves behind, of dynamic_lib_load/src/dynamic_lib_load.cpp.
use api_bridge.Base.{◌≡◌, ◌∙◌, ap, sym, refl, Option, some, none, List, ◌∷◌, arith}
use api_bridge.Text.{Text}
use api_bridge.Api.Calls.{CodeCall, SizeCall}
use api_bridge.Loader.{
  Linker, Loader, loaded, load_library, unload_library, via, c_code, c_size, close,
}
use api_bridge.Loader.Symbols.{Symbol, symbol_name}
use api_bridge.Loader.Table.{
  code_name, size_name, code_symbol, size_symbol, c_code-via, c_size-via, reached,
  load_library-reaches,
}

module _ {Lib F : Type 0} where
  unload_library_lem :
      (m : Loader Lib F) (handle : Lib)
      → m.lib ≡ some handle
      → unload_library m ≡ record m { lib = none; closed = handle ∷ m.closed }
  unfolding unload_library close
  unload_library_lem m handle e = ground (arith, e)

  -- A call of a pointer does not look at the library.
  via_kept :
      {C : Type 0} (s : Symbol) (m : Loader Lib F) (lib : Option Lib) (closed : List Lib) (c : C)
      → via s (record m { lib = lib; closed = closed }) c ≡ via s m c
  unfolding via
  via_kept s m lib closed c = refl

  -- If a first library is loaded, then a second, whose functions the linker finds, and then the
  -- loader unloads, only the second is closed: the first stays open. No library is loaded then, but
  -- every function of the C API still calls the function of its name in the library that was
  -- closed, with its arguments.
  pub unload_library-reaches :
      (k : Linker Lib F) (path : Text) (handle : Lib) (function : Symbol → F) (l : Loader Lib F)
      → k.dlopen path ≡ some handle
      → ((s : Symbol) → k.dlsym handle (symbol_name s) ≡ some (function s))
      → (first : Text) (one : Lib) (of_one : Symbol → F) → k.dlopen first ≡ some one
      → ((s : Symbol) → k.dlsym one (symbol_name s) ≡ some (of_one s))
      → (m n : Loader Lib F) × (load_library k first l ≡ loaded m)
        × (load_library k path m ≡ loaded n)
        × ((unload_library n).lib ≡ none)
        × ((unload_library n).closed ≡ handle ∷ l.closed)
        × ((c : CodeCall) → c_code c (unload_library n) ≡ reached (k.dlsym handle (code_name c)) c)
        × ((c : SizeCall) → c_size c (unload_library n) ≡ reached (k.dlsym handle (size_name c)) c)
  unload_library-reaches k path handle function l opens there first one of_one opens_one there_one =
      let (m, loads_m, lib_m, closed_m, calls_m, sizes_m) =
        load_library-reaches k first one of_one l opens_one there_one in
      let (n, loads_n, lib_n, closed_n, calls_n, sizes_n) =
        load_library-reaches k path handle function m opens there in
      let e = unload_library_lem n handle lib_n in
      (
        m,
        n,
        loads_m,
        loads_n,
        ap (λ u. u.lib) e,
        ap (λ u. u.closed) e ∙ ap (◌∷◌ handle) (closed_n ∙ closed_m),
        λ c.
            ap (c_code c) e
            ∙ c_code-via c _
            ∙ via_kept (code_symbol c) n none (handle ∷ n.closed) c
            ∙ sym (c_code-via c n)
            ∙ calls_n c,
        λ c.
            ap (c_size c) e
            ∙ c_size-via c _
            ∙ via_kept (size_symbol c) n none (handle ∷ n.closed) c
            ∙ sym (c_size-via c n)
            ∙ sizes_n c,
      )
