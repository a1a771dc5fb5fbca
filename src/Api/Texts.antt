-- ===== src/Api/Texts.antt =====
-- The functions of hebench/api_bridge/src/main.cpp that give a text: which text each gives, and
-- that the caller gets it, with its size.
use api_bridge.Base.{
  List, ℕ, ◌+◌, ◌-◌, ◌<◌, ◌≤◌, ◌≡◌, ◌≢◌, ap, ◌∙◌, min, some, arith, length, bit_and, ◌⊎◌,
}
use api_bridge.Text.{Text}
use api_bridge.Types.{Address, Handle}
use api_bridge.Types.Tag
use api_bridge.Memory.{World, Engine, returns, lookup, insert, engine, chars, M}
use api_bridge.Backend.{Backend}
use api_bridge.Utilities.{copy_string}
use api_bridge.Utilities.Laws.{terminated, copy_string_stores, copy_string_asks}
use api_bridge.Engine.{get_error_desc, match_benchmark}
use api_bridge.Engine.Benchmarks
use api_bridge.Api.{check_handle_bits, returns_size}
use api_bridge.Api.Calls.{SizeCall, run_size}
use api_bridge.Api.Names

-- The caller's array, and the size that the caller gives.
abbrev pub target : SizeCall → Address
target (SizeCall.get_scheme_name h s p size) = p
target (SizeCall.get_scheme_security_name h s sec p size) = p
target (SizeCall.get_benchmark_description_ex h d q p size) = p
target (SizeCall.get_error_description h code p size) = p
target (SizeCall.get_last_error_description h p size) = p

abbrev pub room : SizeCall → ℕ
room (SizeCall.get_scheme_name h s p size) = size
room (SizeCall.get_scheme_security_name h s sec p size) = size
room (SizeCall.get_benchmark_description_ex h d q p size) = size
room (SizeCall.get_error_description h code p size) = size
room (SizeCall.get_last_error_description h p size) = size

module _ {P : Type 0} where
  -- The handle is that of this engine.
  abbrev pub IsEngine : Handle → Engine → World P → Type 0
  IsEngine h e w =
      (h.p ≢ 0)
      × (bit_and h.tag Tag.base_engine ≡ Tag.base_engine)
      × (lookup h.p w.heap ≡ some (engine e))

module _ {P : Type 0} (b : Backend P) where
  -- The text that a call gives: a scheme's or a security's name, by the engine's tables; the text of
  -- the backend for a description; the text of an error code, or the last error's.
  abbrev pub Says : SizeCall → Text → World P → Type 0
  Says (SizeCall.get_scheme_name h s p size) text w =
      (e : Engine) × IsEngine h e w × (lookup s e.map_scheme_name ≡ some text)
  Says (SizeCall.get_scheme_security_name h s sec p size) text w =
      (e : Engine) × IsEngine h e w × (lookup sec e.map_security_name ≡ some text)
  Says (SizeCall.get_benchmark_description_ex h d q p size) text w =
      (e : Engine) × IsEngine h e w
      × (match_benchmark e d ≢ 0)
      × (b.get_benchmark_description (match_benchmark e d) q w ≡ returns text w)
  Says (SizeCall.get_error_description h code p size) text w =
      get_error_desc code w ≡ returns text w
  Says (SizeCall.get_last_error_description h p size) text w = w.last_error_description ≡ text

  -- Each call is a copy of the text that it gives.
  run_size-copies :
      (c : SizeCall) (text : Text) (w : World P)
      → Says c text w
      → run_size b c w ≡ returns_size b (copy_string (target c) (room c) text) w
  unfolding run_size Names.get_scheme_name Names.get_scheme_security_name
      Names.get_benchmark_description_ex Names.get_error_description
      Names.get_last_error_description Benchmarks.get_benchmark_description_ex check_handle_bits
  run_size-copies (SizeCall.get_scheme_name h s p size) text w (e, (ne, tag, at), found) =
      ground (arith, ne, tag, at, found)
  run_size-copies (SizeCall.get_scheme_security_name h s sec p size) text w
        (e, (ne, tag, at), found) =
      ground (arith, ne, tag, at, found)
  run_size-copies (SizeCall.get_benchmark_description_ex h d q p size) text w
        (e, (ne, tag, at), matches, says) =
      ground (arith, ne, tag, at, matches, says)
  run_size-copies (SizeCall.get_error_description h code p size) text w says = ground (arith, says)
  run_size-copies (SizeCall.get_last_error_description h p size) text w says =
      ap (λ t. returns_size b (copy_string p size t) w) says

  passes :
      (m : M P ℕ) (n : ℕ) (w v : World P) → m w ≡ returns n v → returns_size b m w ≡ returns n v
  passes m n w v e = ground (arith, e)

  -- A call that gives a text, with an array that holds what is written, stores as much of the text
  -- as the caller's size allows, and a terminator, leaves the rest of the array and of the memory
  -- alone, and returns the size that the whole text takes.
  pub run_size-stores :
      (c : SizeCall) (text : Text) (buffer : List ℕ) (w : World P)
      → Says c text w
      → target c ≢ 0
      → 0 < room c
      → lookup (target c) w.heap ≡ some (chars buffer)
      → min (room c) (length text + 1) ≤ length buffer
      → run_size b c w
        ≡ returns (length text + 1) (record w {
          heap =
              insert
                (target c)
                (chars (terminated (min (room c) (length text + 1) - 1) text buffer))
                w.heap;
        })
  run_size-stores c text buffer w gives ne pos at fits =
      run_size-copies c text w gives
      ∙ passes (copy_string (target c) (room c) text) (length text + 1) w _
          (copy_string_stores (target c) (room c) text buffer w ne pos at fits)

  -- A call that gives a text, with no array or the size 0, changes nothing and returns the size that
  -- the whole text takes.
  pub run_size-asks :
      (c : SizeCall) (text : Text) (w : World P)
      → Says c text w
      → (target c ≡ 0) ⊎ (room c ≡ 0)
      → run_size b c w ≡ returns (length text + 1) w
  run_size-asks c text w gives none =
      run_size-copies c text w gives
      ∙ passes (copy_string (target c) (room c) text) (length text + 1) w w
          (copy_string_asks (target c) (room c) text w none)
