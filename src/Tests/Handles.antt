-- ===== src/Tests/Handles.antt =====
-- Handles at work: a value that two handles share.
use api_bridge.Base.{
  ℕ, ◌≡◌, ◌≢◌, refl, arith, none, some, inl, inr, bit_or, [], ◌∷◌, ◌==◌, Bool-cases,
}
use api_bridge.Types.{Address, Handle}
use api_bridge.Types.Tag
use api_bridge.Memory.{World, returns, lookup}
use api_bridge.Engine.Handles.{duplicate_handle_as, destroy_obj}
use api_bridge.Engine.Handles.Results.{
  object_handle, created, shared_again, destroyed, duplicate_handle_as_lem, destroy_obj_lem,
}
use api_bridge.Engine.Handles.Duplicate.{shared_again-IsSound}
use api_bridge.Engine.Handles.Drain.{OneOf, AreAll, destroy_all, destroy_all_drains}
use api_bridge.Engine.Handles.Histories.{Step, Steps, duplicates, destroys, Steps-IsSound}
use api_bridge.Memory.{EngineObject, Shared, engine_object, shared}
use api_bridge.Engine.Handles.Sound.{IsSound, created-IsSound}
use api_bridge.Engine.Handles.Sharing.{
  Holds, Keeps, created-Holds, duplicate_handle_as-Holds, destroy_obj-Holds,
}
use api_bridge.Tests.Start.{start, start-IsSound}

abbrev with_seven : World ℕ
with_seven = created 1 7 start

abbrev seven : Handle
seven = object_handle 10 8 0x10

with_seven-IsSound : IsSound with_seven
with_seven-IsSound = created-IsSound 1 7 start start-IsSound

seven-Holds : Holds 1 7 seven with_seven
seven-Holds = created-Holds 1 8 0x10 7 start

duplicate_handle_as-Holds_example :
    (g : Handle) × (v : World ℕ) × (duplicate_handle_as 1 seven 0x100 0x10 with_seven ≡ returns g v)
    × (g.tag ≡ bit_or Tag.engine_object 0x100)
    × (lookup g.p with_seven.heap ≡ none)
    × IsSound v
    × Holds 1 7 g v
    × Keeps 0 with_seven v
duplicate_handle_as-Holds_example =
    duplicate_handle_as-Holds 1 7 seven 0x100 0x10 with_seven with_seven-IsSound seven-Holds refl
      refl (inr refl)

destroy_obj-Holds_example :
    (v : World ℕ) × (destroy_obj seven.p with_seven ≡ returns tt v)
    × (lookup seven.p v.heap ≡ none)
    × IsSound v
    × Keeps seven.p with_seven v
destroy_obj-Holds_example = destroy_obj-Holds 1 7 seven with_seven with_seven-IsSound seven-Holds

-- The handle is duplicated, and then the duplicate is destroyed.
abbrev copy : Handle
copy = object_handle 11 8 0x100

abbrev seven_object : EngineObject
seven_object = record { engine = 1; p_obj = 9 }

abbrev with_copy : World ℕ
with_copy = shared_again seven_object (record { value = 7; use_count = 1 }) with_seven

abbrev without_copy : World ℕ
without_copy = destroyed 11 seven_object (record { value = 7; use_count = 2 }) with_copy

copy-Holds : Holds 1 7 copy with_copy
copy-Holds = record {
  nonnull = omega arith;
  tagged = refl;
  object = seven_object;
  at = refl;
  own = refl;
  state = record { value = 7; use_count = 2 };
  block = refl;
  same = refl;
}

copied : Step with_seven with_copy 0
copied =
    duplicates 1 7 seven copy 0x100 0x10 seven-Holds refl refl (inr refl)
      (duplicate_handle_as_lem 1 seven 0x100 0x10 seven_object (record { value = 7; use_count = 1 })
        with_seven refl refl refl (inr refl) (omega arith) refl refl (omega arith) refl)
      refl

dropped : Step with_copy without_copy 11
dropped =
    destroys 1 7 copy copy-Holds
      (destroy_obj_lem 11 seven_object (record { value = 7; use_count = 2 }) with_copy (omega arith)
        refl (omega arith) refl)
      refl

history : Steps (0 ∷ 11 ∷ []) with_seven without_copy
history = (with_copy, copied, (without_copy, dropped, refl))

Steps-IsSound_example : IsSound without_copy
Steps-IsSound_example =
    Steps-IsSound (0 ∷ 11 ∷ []) with_seven without_copy with_seven-IsSound history

-- Both handles of the value, the duplicate first.
with_copy-IsSound : IsSound with_copy
with_copy-IsSound =
    shared_again-IsSound 10 seven_object (record { value = 7; use_count = 1 }) with_seven
      with_seven-IsSound refl refl

only_two :
    (q : Address) (obj : EngineObject)
    → lookup q with_copy.heap ≡ some (engine_object obj)
    → OneOf q (11 ∷ 10 ∷ [])
only_two q obj e = elim (Bool-cases (q == 11)) [
  | inl last ↦ inl (ground arith)
  | inr other ↦ inr (inl (ground arith))
]

two_alive :
    (q : Address)
    → OneOf q (11 ∷ 10 ∷ [])
    → (obj : EngineObject) × (lookup q with_copy.heap ≡ some (engine_object obj))
two_alive q (inl e) = (seven_object, ground (arith, e))
two_alive q (inr (inl e)) = (seven_object, ground (arith, e))
two_alive q (inr (inr e)) = absurd e

both_handles : AreAll (11 ∷ 10 ∷ []) with_copy
both_handles = record {
  distinct = ((omega arith, tt), (tt, tt));
  alive = two_alive;
  all = only_two;
}

destroy_all_drains_example :
    (v : World ℕ) × (destroy_all (11 ∷ 10 ∷ []) with_copy ≡ returns tt v)
    × IsSound v
    × ((q : Address) (obj : EngineObject) → lookup q v.heap ≢ some (engine_object obj))
    × ((a : Address) (s : Shared ℕ) → lookup a v.heap ≢ some (shared s))
destroy_all_drains_example =
    destroy_all_drains (11 ∷ 10 ∷ []) with_copy with_copy-IsSound both_handles
