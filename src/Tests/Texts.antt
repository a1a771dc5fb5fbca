-- ===== src/Tests/Texts.antt =====
-- Texts, error codes and the search for data packs at work.
use api_bridge.Base.{ℕ, ◌≡◌, refl, arith, some, inl, [], ◌∷◌, if◌then◌else◌, ◌==◌}
use api_bridge.Types.{ecode_critical_error}
use api_bridge.Memory.{World, returns, Fails, lookup, insert, chars}
use api_bridge.Utilities.{copy_string}
use api_bridge.Utilities.Laws.{copy_string_protocol, copy_string_asks}
use api_bridge.Engine.{add_error_code, set_last_error}
use api_bridge.Engine.Tables.{set_last_error-add_error_code, add_error_code-twice}
use api_bridge.Benchmark.{find_data_pack}
use api_bridge.Benchmark.Find.{Picked, find_data_pack-Picked}
use api_bridge.Tests.Start.{start, two_packs}

abbrev empty : World ℕ
empty = start

copy_string_protocol_example :
    copy_string 8 3 (65 ∷ 66 ∷ []) empty
    ≡ returns 3 (record empty { heap = insert 8 (chars (65 ∷ 66 ∷ 0 ∷ [])) empty.heap })
copy_string_protocol_example =
    copy_string_protocol 8 (65 ∷ 66 ∷ []) (1 ∷ 2 ∷ 3 ∷ []) empty empty (omega arith) refl
      (copy_string_asks 0 0 (65 ∷ 66 ∷ []) empty (inl refl))

set_last_error-add_error_code_example :
    (v : World ℕ) × (add_error_code 5 (65 ∷ []) empty ≡ returns tt v)
    × ((other : ℕ)
        → lookup other v.map_error_desc
          ≡ (if other == 5 then some (65 ∷ []) else lookup other empty.map_error_desc))
    × (set_last_error 5 v
        ≡ returns tt (record v { last_error = 5; last_error_description = 65 ∷ [] }))
set_last_error-add_error_code_example = set_last_error-add_error_code 5 (65 ∷ []) empty refl

abbrev with_five : World ℕ
with_five = record empty { map_error_desc = (5, 65 ∷ []) ∷ [] }

add_error_code-twice_example :
    Fails ecode_critical_error with_five (add_error_code 5 (66 ∷ []) with_five)
add_error_code-twice_example = add_error_code-twice 5 (66 ∷ []) (65 ∷ []) with_five refl

find_data_pack-Picked_example :
    Picked two_packs 0 2 empty
      (find_data_pack (record { p_data_packs = 7; pack_count = 2 }) 0 empty)
find_data_pack-Picked_example =
    find_data_pack-Picked (record { p_data_packs = 7; pack_count = 2 }) 0 two_packs empty
      (omega arith) refl (omega arith)
