-- ===== src/Tests/Libraries.antt =====
-- The loader at work, with a linker that finds every symbol by its name.
use api_bridge.Base.{ℕ, length, ◌≡◌, refl, some, none, [], ◌∷◌}
use api_bridge.Text.{Text}
use api_bridge.Api.Calls.{CodeCall, SizeCall}
use api_bridge.Loader.{Linker, Loader, loaded, load_library, unload_library, c_code, c_size}
use api_bridge.Loader.Symbols.{symbol_name}
use api_bridge.Loader.Unload.{unload_library-reaches}
use api_bridge.Loader.Table.{reached, code_name, size_name, load_library-reaches}

-- Each function is known by its name.
abbrev complete : Linker ℕ Text
complete = record { dlopen = λ path. some 1; dlsym = λ handle name. some name; dlerror = [] }

abbrev bare : Linker ℕ Text
bare = record { dlopen = λ path. some 1; dlsym = λ handle name. none; dlerror = [] }

abbrev unloaded : Loader ℕ Text
unloaded = record { functions = []; lib = none; closed = [] }

load_library-reaches_example :
    (m : Loader ℕ Text) × (load_library complete [] unloaded ≡ loaded m)
    × (m.lib ≡ some 1)
    × (m.closed ≡ [])
    × ((c : CodeCall) → c_code c m ≡ reached (complete.dlsym 1 (code_name c)) c)
    × ((c : SizeCall) → c_size c m ≡ reached (complete.dlsym 1 (size_name c)) c)
load_library-reaches_example =
    load_library-reaches complete [] 1 symbol_name unloaded refl (λ s. refl)

-- A library for each path, by the length of the path; its functions are known by their names behind
-- the library's number.
abbrev many : Linker ℕ Text
many = record {
  dlopen = λ path. some (length path);
  dlsym = λ handle name. some (handle ∷ name);
  dlerror = [];
}

unload_library-reaches_example :
    (m n : Loader ℕ Text) × (load_library many (65 ∷ []) unloaded ≡ loaded m)
    × (load_library many (65 ∷ 66 ∷ []) m ≡ loaded n)
    × ((unload_library n).lib ≡ none)
    × ((unload_library n).closed ≡ 2 ∷ [])
    × ((c : CodeCall) → c_code c (unload_library n) ≡ reached (many.dlsym 2 (code_name c)) c)
    × ((c : SizeCall) → c_size c (unload_library n) ≡ reached (many.dlsym 2 (size_name c)) c)
unload_library-reaches_example =
    unload_library-reaches many (65 ∷ 66 ∷ []) 2 (λ s. 2 ∷ symbol_name s) unloaded refl (λ s. refl)
      (65 ∷ []) 1 (λ s. 1 ∷ symbol_name s) refl (λ s. refl)
