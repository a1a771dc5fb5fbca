-- ===== src/Memory.antt =====
-- The memory that the API functions, the wrapper's objects and the caller share: a heap of typed
-- objects, with the static members of `BaseEngine` beside it, and the monad of the code that runs
-- on it, with exceptions and undefined behaviour. `P` is the type of the backend's payloads.
mod Cells
mod Kinds
pub use Cells.*
pub use Kinds.*
use api_bridge.Base.{
  ℕ, suc, Bool, true, false, Option, none, some, List, [], ◌∷◌, if◌then◌else◌, ◌==◌, ltb, get_elem?,
  ◌≡◌,
}
use api_bridge.Text.{Text}
use api_bridge.Types.{Address, ErrorCode}
use Cells.{Heap, lookup, insert, erase}

-- The standard exceptions that the code throws or lets through.
pub data Standard : Type 0 where
  out_of_range logic_error runtime_error invalid_argument bad_cast : Standard

-- `library` is a standard exception that the library itself throws, with a text of its own;
-- `unmatched` is any other thrown value.
pub data Exception : Type 0 where
  hebench_error : Text → ErrorCode → Exception
  standard : Standard → Text → Exception
  library : Standard → Exception
  unmatched : Exception

-- `next` is the next fresh address; the other fields are the static members.
pub record World (P : Type 0) : Type 0 where
  pub heap : Heap (Object P)
  pub next : Address
  pub last_error : ErrorCode
  pub last_error_description : Text
  pub map_error_desc : List (ℕ × Text)

pub data Outcome (P A : Type 0) : Type 0 where
  returns : A → World P → Outcome P A
  throws : Exception → World P → Outcome P A
  undefined : Outcome P A

-- A failure with this code that left the memory as it was.
abbrev pub Fails : {P A : Type 0} → ErrorCode → World P → Outcome P A → Type 0
Fails code w (returns a v) = ⊥
Fails code w (throws (hebench_error text c) v) = (c ≡ code) × (v ≡ w)
Fails code w (throws (standard kind text) v) = ⊥
Fails code w (throws (library kind) v) = ⊥
Fails code w (throws unmatched v) = ⊥
Fails code w undefined = ⊥

abbrev pub M : Type 0 → Type 0 → Type 0
M P A = World P → Outcome P A

infixl 5 ◌>>=◌ ◌>>◌
abbrev pub ◌>>=◌ : {P A B : Type 0} → M P A → (A → M P B) → M P B
◌>>=◌ m f w = elim (m w) [ returns a v ↦ f a v | throws e v ↦ throws e v | undefined ↦ undefined ]

abbrev pub ◌>>◌ : {P A B : Type 0} → M P A → M P B → M P B
m >> k = m >>= λ _. k

abbrev pub bind? : {A B : Type 0} → Option A → (A → Option B) → Option B
bind? none f = none
bind? (some a) f = f a

module _ {P : Type 0} where
  abbrev pub pure : {A : Type 0} → A → M P A
  pure a w = returns a w

  abbrev pub throw : {A : Type 0} → Exception → M P A
  throw e w = throws e w

  abbrev pub throw_if : Bool → Exception → M P (Unit {0})
  throw_if true e w = throws e w
  throw_if false e w = returns tt w

  -- A statement under an `if` with no `else`.
  abbrev pub when : Bool → M P (Unit {0}) → M P (Unit {0})
  when true m w = m w
  when false m w = returns tt w

  -- `if` and `else` in a sequence of statements.
  abbrev pub branch : {A : Type 0} → Bool → M P A → M P A → M P A
  branch true m k w = m w
  branch false m k w = k w

  abbrev pub gets : {A : Type 0} → (World P → A) → M P A
  gets f w = returns (f w) w

  abbrev pub modify : (World P → World P) → M P (Unit {0})
  modify f w = returns tt (f w)

  -- What the language leaves undefined if it is missing.
  abbrev pub defined : {A : Type 0} → Option A → M P A
  defined none w = undefined
  defined (some a) w = returns a w

  -- A read through a pointer to an object of a kind. A pointer that is null, dangling or to an
  -- object of another kind is undefined behaviour.
  abbrev pub deref : {A : Type 0} → (Object P → Option A) → Address → M P A
  deref kind p w = defined (bind? (lookup p w.heap) kind) w

  -- A write through a pointer to an object of a kind.
  abbrev pub assign : {A : Type 0} → (Object P → Option A) → Address → Object P → M P (Unit {0})
  assign kind p o = do deref kind p; modify (λ w. record w { heap = insert p o w.heap })

  -- `array[i]`
  abbrev pub index : {A : Type 0} → List A → ℕ → M P A
  index xs i = defined (get_elem? xs i)

  -- `new`. Memory does not run out.
  abbrev pub allocate : Object P → M P Address
  allocate o w = returns w.next (record w { heap = (w.next, o) ∷ w.heap; next = suc w.next })

  -- `delete`, of an object that is there.
  abbrev pub free : {A : Type 0} → (Object P → Option A) → Address → M P (Unit {0})
  free kind p = do deref kind p; modify (λ w. record w { heap = erase p w.heap })
