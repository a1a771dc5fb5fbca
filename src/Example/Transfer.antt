-- ===== src/Example/Transfer.antt =====
-- The transfers of the example benchmark, `load` and `store` of
-- api_bridge_example_backend/src/ex_benchmark.cpp: they share data by duplicating handles.
use api_bridge.Base.{
  ℕ, ◌≡◌, ◌≢◌, refl, sym, subst, ◌∙◌, ap, arith, some, List, ◌∷◌, ◌⊎◌, inl, inr, bit_and, bit_or,
  if◌then◌else◌, ◌==◌,
}
use api_bridge.Types.{Address, Handle, ecode_invalid_args}
use api_bridge.Types.Tag
use api_bridge.Memory.{World, Fails, lookup, Benchmark, benchmark, handles}
use api_bridge.Engine.Handles.{duplicate_handle_as}
use api_bridge.Engine.Handles.Sound.{IsSound}
use api_bridge.Engine.Handles.Sharing.{Holds}
use api_bridge.Engine.Handles.Caller.{duplicate_handle_as-IsGiven}
use api_bridge.Example.Benchmark.{
  Payload, tag_encode_output, tag_encrypt_output, tag_load_output, load,
}
use api_bridge.Example.Stages.{HasTags, Gives}

pub duplicates :
    (this : Address) (h : Handle) (new_tags tags : ℕ) (value : Payload) (w : World Payload)
    → IsSound w
    → Holds this value h w
    → bit_and tags Tag.mask_reserved_bits ≡ 0
    → bit_and (bit_or Tag.engine_object tags) tags ≡ tags
    → HasTags h tags
    → bit_and new_tags Tag.mask_reserved_bits ≡ 0
    → Gives this new_tags value w (duplicate_handle_as this h new_tags tags w)
duplicates this h new_tags tags value w sound o clear has tagged new =
    duplicate_handle_as-IsGiven this value h new_tags tags w sound o clear
      (ap (λ (t : ℕ). bit_and t tags) tagged ∙ has) new

load_runs :
    (this p tags : ℕ) (bench : Benchmark) (h : Handle) (rest : List Handle) (w : World Payload)
    → lookup this w.heap ≡ some (benchmark bench)
    → p ≢ 0
    → lookup p w.heap ≡ some (handles (h ∷ rest))
    → tags ≡ (
        if bit_and h.tag tag_encode_output == tag_encode_output
        then tag_encode_output
        else tag_encrypt_output)
    → load this p 1 w ≡ duplicate_handle_as bench.engine h tag_load_output tags w
unfolding load
load_runs this p tags bench h rest w at ne array e = ground (arith, at, array, e)

-- In a sound memory, loading, by a benchmark that is alive, an array that starts with a handle of
-- encoded or of encrypted data, as one handle, gives a handle of loaded data with the same value.
pub load-Gives :
    (this p : Address) (bench : Benchmark) (h : Handle) (rest : List Handle) (mats : Payload)
    (w : World Payload)
    → IsSound w
    → lookup this w.heap ≡ some (benchmark bench)
    → p ≢ 0
    → lookup p w.heap ≡ some (handles (h ∷ rest))
    → Holds bench.engine mats h w
    → HasTags h tag_encode_output ⊎ HasTags h tag_encrypt_output
    → Gives bench.engine tag_load_output mats w (load this p 1 w)
load-Gives this p bench h rest mats w sound at ne array o (inl tagged) =
    subst (Gives bench.engine tag_load_output mats w)
      (sym (load_runs this p tag_encode_output bench h rest w at ne array (ground (arith, tagged))))
      (duplicates bench.engine h tag_load_output tag_encode_output mats w sound o refl refl tagged
        refl)
load-Gives this p bench h rest mats w sound at ne array o (inr tagged) =
    subst (Gives bench.engine tag_load_output mats w)
      (sym
        (load_runs this p tag_encrypt_output bench h rest w at ne array (ground (arith, tagged))))
      (duplicates bench.engine h tag_load_output tag_encrypt_output mats w sound o refl refl tagged
        refl)

-- Loading any other number of handles than one, or from a null array, fails with the error of
-- invalid arguments and changes nothing.
pub load-refuses :
    (this p count : ℕ) (w : World Payload)
    → (count ≢ 1) ⊎ (p ≡ 0)
    → Fails ecode_invalid_args w (load this p count w)
unfolding load
load-refuses this p count w bad = ground arith
