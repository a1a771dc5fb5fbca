-- ===== src/Engine/Handles/Safe.antt =====
-- Code that keeps the invariant of reference-counted handles, whether it returns or throws: what
-- it takes for each way in which code reads and writes memory.
use api_bridge.Base.{
  ℕ, Bool, true, false, ◌≡◌, refl, sym, ◌∙◌, Option, none, some, List, [], arith, if◌then◌else◌,
  inl, inr, get_elem?, Option-cases, subst,
}
use api_bridge.Types.{Address}
use api_bridge.Memory.{
  branch, Exception, World, Object, Outcome, returns, throws, undefined, M, ◌>>=◌, ◌>>◌, pure,
  throw, throw_if, when, gets, modify, defined, deref, assign, index, allocate, free, bind?, lookup,
  insert, erase, EngineObject, Shared, engine_object, shared, erase-Fresh, lookup-erase_ne,
  lookup-erase_self, lookup_lt, lookup_above, Fresh-mono,
}
use api_bridge.Engine.Handles.Owners.{owners, owners-erase}
use api_bridge.Engine.Handles.Sound.{IsSound}
use api_bridge.Engine.Handles.Caller.{
  IsPlain, written-IsSound, plain_owns, plain_block, plain_owner, plain_apart,
}

module _ {P : Type 0} where
  -- The memory at the end, if there is one, is sound.
  abbrev pub EndsSound : {A : Type 0} → Outcome P A → Type 0
  EndsSound (returns a v) = IsSound v
  EndsSound (throws e v) = IsSound v
  EndsSound undefined = Unit {0}

  pub record IsSafe {A : Type 0} (m : M P A) : Type 0 where
    pub ends : (w : World P) → IsSound w → EndsSound (m w)

  continues :
      {A B : Type 0} (o : Outcome P A) (f : A → M P B)
      → EndsSound o
      → ((a : A) → IsSafe (f a))
      → EndsSound (
          ◌>>=◌
            (λ w. o)
            f
            (record {
              heap = [];
              next = 0;
              last_error = 0;
              last_error_description = [];
              map_error_desc = [];
            }))
  continues (returns a v) f sound safe = (safe a).ends v sound
  continues (throws e v) f sound safe = sound
  continues undefined f sound safe = tt

  pub bind-IsSafe :
      {A B : Type 0} {m : M P A} {f : A → M P B}
      → IsSafe m
      → ((a : A) → IsSafe (f a))
      → IsSafe (m >>= f)
  bind-IsSafe {m = m} {f = f} safe rest = record {
    ends = λ w sound. continues (m w) f (safe.ends w sound) rest;
  }

  pub then-IsSafe : {A B : Type 0} {m : M P A} {k : M P B} → IsSafe m → IsSafe k → IsSafe (m >> k)
  then-IsSafe safe rest = bind-IsSafe safe (λ a. rest)

  -- The same, at a memory.
  pub bind_ends :
      {A B : Type 0} (m : M P A) (f : A → M P B) (w : World P)
      → IsSafe m
      → ((a : A) → IsSafe (f a))
      → IsSound w
      → EndsSound ((m >>= f) w)
  bind_ends m f w safe rest sound = (bind-IsSafe safe rest).ends w sound

  pub then_ends :
      {A B : Type 0} (m : M P A) (k : M P B) (w : World P)
      → IsSafe m
      → IsSafe k
      → IsSound w
      → EndsSound ((m >> k) w)
  then_ends m k w safe rest sound = (then-IsSafe safe rest).ends w sound

  pub pure-IsSafe : {A : Type 0} {a : A} → IsSafe (pure a)
  pure-IsSafe = record { ends = λ w sound. sound }

  pub throw-IsSafe : {A : Type 0} (e : Exception) → IsSafe {A = A} (throw e)
  throw-IsSafe e = record { ends = λ w sound. sound }

  pub throw_if-IsSafe : (b : Bool) (e : Exception) → IsSafe (throw_if b e)
  throw_if-IsSafe true e = record { ends = λ w sound. sound }
  throw_if-IsSafe false e = record { ends = λ w sound. sound }

  pub when-IsSafe : (b : Bool) {m : M P (Unit {0})} → IsSafe m → IsSafe (when b m)
  when-IsSafe true safe = record { ends = λ w sound. safe.ends w sound }
  when-IsSafe false safe = record { ends = λ w sound. sound }

  pub branch-IsSafe :
      {A : Type 0} (b : Bool) {m k : M P A} → IsSafe m → IsSafe k → IsSafe (branch b m k)
  branch-IsSafe true safe other = record { ends = λ w sound. safe.ends w sound }
  branch-IsSafe false safe other = record { ends = λ w sound. other.ends w sound }

  pub throw_if_ends :
      (b : Bool) (e : Exception) (w : World P) → IsSound w → EndsSound (throw_if b e w)
  throw_if_ends b e w sound = (throw_if-IsSafe b e).ends w sound

  pub when_ends :
      (b : Bool) (m : M P (Unit {0})) (w : World P) → IsSafe m → IsSound w → EndsSound (when b m w)
  when_ends b m w safe sound = (when-IsSafe b safe).ends w sound

  pub if-IsSafe :
      {A : Type 0} (b : Bool) {m k : M P A} → IsSafe m → IsSafe k → IsSafe (if b then m else k)
  if-IsSafe true safe other = safe
  if-IsSafe false safe other = other

  pub gets-IsSafe : {A : Type 0} (f : World P → A) → IsSafe (gets f)
  gets-IsSafe f = record { ends = λ w sound. sound }

  pub defined-IsSafe : {A : Type 0} (o : Option A) → IsSafe (defined o)
  defined-IsSafe none = record { ends = λ w sound. tt }
  defined-IsSafe (some a) = record { ends = λ w sound. sound }

  pub deref-IsSafe : {A : Type 0} (kind : Object P → Option A) (p : Address) → IsSafe (deref kind p)
  deref-IsSafe kind p = record {
    ends = λ w. (defined-IsSafe (bind? (lookup p w.heap) kind)).ends w;
  }

  pub index-IsSafe : {A : Type 0} (xs : List A) (i : ℕ) → IsSafe (index xs i)
  index-IsSafe xs i = defined-IsSafe (get_elem? xs i)

  -- A kind of objects that are no blocks and no owners of one.
  pub record IsPlainKind {A : Type 0} (kind : Object P → Option A) : Type 0 where
    pub no_block : (s : Shared P) → kind (shared s) ≡ none
    pub no_owner : (o : EngineObject) → kind (engine_object o) ≡ none

  kind-IsPlain :
      {A : Type 0} (kind : Object P → Option A) (k : IsPlainKind kind) (o : Object P) (a : A)
      → kind o ≡ some a
      → IsPlain o
  kind-IsPlain kind k (shared s) a e = absurd (ground (arith, e, k.no_block s))
  kind-IsPlain kind k (engine_object s) a e = absurd (ground (arith, e, k.no_owner s))
  kind-IsPlain kind k o a e = tt

  pub found_kind :
      {A : Type 0} (kind : Object P → Option A) (o : Option (Object P)) (a : A)
      → bind? o kind ≡ some a
      → (u : Object P) × (o ≡ some u) × (kind u ≡ some a)
  found_kind kind none a e = cc
  found_kind kind (some u) a e = (u, refl, e)

  -- Code that starts with a read of an object of a kind.
  deref_first :
      {A B : Type 0} (kind : Object P → Option A) (p : Address) (m : M P B)
      → IsPlainKind kind
      → ((w : World P) (u : Object P)
          → IsSound w
          → lookup p w.heap ≡ some u
          → IsPlain u
          → EndsSound (m w))
      → IsSafe (deref kind p >> m)
  deref_first kind p m k next = record {
    ends = λ w sound. elim (Option-cases (bind? (lookup p w.heap) kind)) [
      | inl missing ↦
          let e : (deref kind p >> m) w ≡ undefined = ground (arith, missing) in
          subst EndsSound (sym e) tt
      | inr (a, found) ↦
          let (u, there, is) = found_kind kind (lookup p w.heap) a found in
          let e : (deref kind p >> m) w ≡ m w = ground (arith, found) in
          subst EndsSound (sym e) (next w u sound there (kind-IsPlain kind k u a is))
    ];
  }

  -- A write, and the end, of a plain object.
  pub assign-IsSafe :
      {A : Type 0} (kind : Object P → Option A) (p : Address) (o : Object P)
      → IsPlainKind kind
      → IsPlain o
      → IsSafe (assign kind p o)
  assign-IsSafe kind p o k plain =
      deref_first kind p (modify (λ w. record w { heap = insert p o w.heap })) k
        λ w u sound at was. written-IsSound p u o w at was plain sound

  module _ (p : Address) (u : Object P) (w : World P) (at : lookup p w.heap ≡ some u)
      (was : IsPlain u) (v : IsSound w) where
    abbrev without : World P
    without = record w { heap = erase p w.heap }

    left : (a : Address) (o : Object P) → lookup a without.heap ≡ some o → lookup a w.heap ≡ some o
    left a o e =
        ground (arith, lookup-erase_self w.next p w.heap v.fresh, lookup-erase_ne p a w.heap)

    same_owners : (a : Address) → owners a without.heap ≡ owners a w.heap
    same_owners a = omega (arith, owners-erase a p u w.heap at, plain_owns a u was)

    left_alive :
        (q : Address) (obj : EngineObject)
        → lookup q without.heap ≡ some (engine_object obj)
        → (s : Shared P) × (lookup obj.p_obj without.heap ≡ some (shared s))
    left_alive q obj e =
        let (s, block) = v.alive q obj (left q (engine_object obj) e) in
        (
          s,
          ground (
            arith,
            lookup-erase_ne p obj.p_obj w.heap,
            plain_apart p obj.p_obj u s w was at block,
            block,
          ),
        )

    without-IsSound : IsSound without
    without-IsSound = record {
      fresh = erase-Fresh w.next p w.heap v.fresh;
      null_free = ground (
        arith,
        v.null_free,
        lookup-erase_self w.next p w.heap v.fresh,
        lookup-erase_ne p 0 w.heap,
      );
      started = v.started;
      counted = λ a s e. v.counted a s (left a (shared s) e) ∙ sym (same_owners a);
      owned = λ a s e. v.owned a s (left a (shared s) e);
      alive = left_alive;
    }

  pub free-IsSafe :
      {A : Type 0} (kind : Object P → Option A) (p : Address)
      → IsPlainKind kind
      → IsSafe (free kind p)
  free-IsSafe kind p k =
      deref_first kind p (modify (λ w. record w { heap = erase p w.heap })) k
        λ w u sound at was. without-IsSound p u w at was sound

  pub allocate-IsSafe : (o : Object P) → IsPlain o → IsSafe (allocate o)
  allocate-IsSafe o plain = record {
    ends = λ w v. record {
      fresh =
          ground
            (arith, lookup_above w.next w.next w.heap v.fresh, Fresh-mono w.next w.heap v.fresh);
      null_free = ground (arith, v.null_free, v.started);
      started = omega arith;
      counted = λ a s e. ground (arith, v.counted a s, plain_owns a o plain, plain_block o s plain);
      owned = λ a s e. ground (arith, v.owned a s, plain_block o s plain);
      alive = λ q obj e.
          let old : lookup q w.heap ≡ some (engine_object obj) =
            ground (arith, plain_owner o obj plain) in
          let (s, block) = v.alive q obj old in
          (s, ground (arith, lookup_lt w.next obj.p_obj (shared s) w.heap v.fresh block));
    };
  }

-- The rules for code without a write.
pub ruleset safe_rules = (
  bind-IsSafe, then-IsSafe, bind_ends, then_ends, throw_if_ends, when_ends, pure-IsSafe,
  throw-IsSafe, throw_if-IsSafe, when-IsSafe, branch-IsSafe, if-IsSafe, gets-IsSafe, defined-IsSafe,
  deref-IsSafe, index-IsSafe,
)
