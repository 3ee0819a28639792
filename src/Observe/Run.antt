-- ===== src/Observe/Run.antt =====
-- Calls that change the process: the global tracer of pkg/telemetry/tracing.go, the calls made of
-- the libraries so far, and the rest of the program's state. A panic keeps what was done before it.
use jit_bot.Base.{ℕ, ◌+◌, Bool, List, [], ◌∷◌, ◌++◌, ◌≡◌, Option, none, some, Bytes, map}
use jit_bot.Base.Int.{ℤ}
use jit_bot.Observe.Metrics.{Sample}

pub data Value : Type 0 where
  string : Bytes → Value
  int : ℕ → Value
  strings : List Bytes → Value

pub record Attribute : Type 0 where
  pub key : Bytes
  pub value : Value

pub data Code : Type 0 where
  ok_code error_code : Code

-- A call of a library. A span is named by its number.
pub data Call (E : Type 0) : Type 0 where
  start : ℕ → Bytes → List Attribute → Call E
  add_event : ℕ → Bytes → List Attribute → Call E
  set_attributes : ℕ → List Attribute → Call E
  set_status : ℕ → Code → Bytes → Call E
  record_error : ℕ → E → Call E
  end : ℕ → Call E
  extract : List (Bytes × Bytes) → Call E
  sample : Sample → Call E

-- A tracer provider: none of its spans is exported, or they go to an endpoint. The rate is in
-- thousandths.
pub record Exporting : Type 0 where
  pub service : Bytes
  pub version : Bytes
  pub environment : Bytes
  pub component : Bytes
  pub endpoint : Bytes
  pub rate : ℤ

pub data Provider : Type 0 where
  no_op : Provider
  exporting : Exporting → Provider

-- `tracer` is the package's variable, nil until it is set; `propagates` says whether the composite
-- propagator is installed.
pub record Process (E S : Type 0) : Type 0 where
  pub tracer : Option Provider
  pub propagates : Bool
  pub spans : ℕ
  pub calls : List (Call E)
  pub rest : S

pub data Outcome (E S A : Type 0) : Type 0 where
  done : A → Process E S → Outcome E S A
  panicked : Process E S → Outcome E S A

abbrev pub Run : Type 0 → Type 0 → Type 0 → Type 0
Run E S A = Process E S → Outcome E S A

module _ {E S : Type 0} where
  abbrev pub emit : List (Call E) → Process E S → Process E S
  emit calls w = record w { calls = w.calls ++ calls }

  abbrev pub emits : List (Call E) → Run E S (Unit {0})
  emits calls w = done tt (emit calls w)

  abbrev pub samples : List Sample → Run E S (Unit {0})
  samples l = emits (map sample l)

  -- Behind `defer`: the deferred calls are made after a panic too.
  abbrev pub deferring : {A : Type 0} → List (Call E) → Run E S A → Run E S A
  deferring calls m w = elim (m w) [
    | done a w' ↦ done a (emit calls w')
    | panicked w' ↦ panicked (emit calls w')
  ]

  abbrev pub with_span : Bytes → List Attribute → Process E S → Process E S
  with_span name attributes w = record w {
    spans = w.spans + 1;
    calls = w.calls ++ start w.spans name attributes ∷ [];
  }

  -- tracer.Start: a call through a nil interface panics. The number of the span is returned.
  unfoldable pub tracer_start : Bytes → List Attribute → Run E S ℕ
  tracer_start name attributes w = elim w.tracer [
    | none ↦ panicked w
    | some provider ↦ done w.spans (with_span name attributes w)
  ]

  pub tracer_start_lem :
      (name : Bytes) (attributes : List Attribute) (w : Process E S) {p : Provider}
      → w.tracer ≡ some p
      → tracer_start name attributes w ≡ done w.spans (with_span name attributes w)
  unfolding tracer_start
  tracer_start_lem name attributes w h = rw h

  pub tracer_start_nil :
      (name : Bytes) (attributes : List Attribute) (w : Process E S)
      → w.tracer ≡ none
      → tracer_start name attributes w ≡ panicked w
  unfolding tracer_start
  tracer_start_nil name attributes w h = rw h

abbrev pub pure : {E S A : Type 0} → A → Run E S A
pure a w = done a w

infixl 5 ◌>>=◌ ◌>>◌
abbrev pub ◌>>=◌ : {E S A B : Type 0} → Run E S A → (A → Run E S B) → Run E S B
◌>>=◌ m f w = elim (m w) [ done a w' ↦ f a w' | panicked w' ↦ panicked w' ]

abbrev pub ◌>>◌ : {E S B : Type 0} → Run E S (Unit {0}) → Run E S B → Run E S B
m >> k = m >>= λ _. k
