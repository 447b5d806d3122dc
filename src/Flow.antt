-- ===== src/Flow.antt =====
-- How a `Reconcile` runs. An action takes the world and returns how it went on, the world and the
-- calls that it made: it goes on with a value, or the function returns, or it panics. What was
-- done before a return or a panic stays done.
pub mod Order
pub mod Rules
pub mod Safety
use vitastor_operator.Prelude.{
  ℕ, String, ◌≡◌, refl, ◌⊎◌, inl, inr, Bool, true, false, List, [], ◌∷◌, ◌++◌, Option, none, some,
}
use vitastor_operator.Prelude.Int.{ℤ, pos}
use vitastor_operator.Types.Object.{Object}

-- An error of a client call. `errors.IsNotFound` holds of the first alone.
pub data Error : Type 0 where
  not_found : Error
  failed : String → Error

pub data Result {ℓ} (A : Type ℓ) : Type ℓ where
  ok : A → Result A
  err : Error → Result A

-- The value, if there is one, has the property.
abbrev pub WhenOk : {A : Type 0} → (A → Type 0) → Result A → Type 0
WhenOk Q (ok a) = Q a
WhenOk Q (err e) = Unit

-- A minute, in the nanoseconds of a time.Duration.
abbrev pub minute : ℕ
minute = 60000000000

pub Result-cases {ℓ} :
    {A : Type ℓ} (r : Result A) → ((a : A) × (r ≡ ok a)) ⊎ ((e : Error) × (r ≡ err e))
Result-cases (ok a) = inl (a, refl)
Result-cases (err e) = inr (e, refl)

-- ctrl.Result; `requeue_after` is a time.Duration, in nanoseconds.
pub record CtrlResult : Type 0 where
  pub requeue : Bool
  pub requeue_after : ℤ

-- What a `Reconcile` returns.
pub record Reply : Type 0 where
  pub result : CtrlResult
  pub error : Option Error

-- The calls that acquire or release something, or write outside the process, in their order. An
-- acquisition is listed when it succeeded, a write when it was sent.
pub data Event : Type 0 where
  file_opened file_closed : String → Event
  etcd_dialled etcd_closed : Event
  etcd_put : String → String → Event
  body_opened body_closed : ℕ → Event
  created updated deleted status_updated : Object → Event

pub data Flow {ℓ} (A : Type ℓ) : Type ℓ where
  next : A → Flow A
  exit : Reply → Flow A
  panic : Flow A

-- The action went on, or the reconciliation ended without an error.
abbrev pub Succeeded {ℓ} : {A : Type ℓ} → Flow A → Type 0
Succeeded (next a) = Unit
Succeeded (exit r) = r.error ≡ none
Succeeded panic = ⊥

pub record Ran (W A : Type 0) : Type 0 where
  pub flow : Flow A
  pub world : W
  pub events : List Event

abbrev pub Action : Type 0 → Type 0 → Type 0
Action W A = W → Ran W A

-- `ctrl.Result{}`: no further run until something changes.
abbrev pub no_requeue : CtrlResult
no_requeue = record { requeue = false; requeue_after = pos 0 }

-- `ctrl.Result{Requeue: true}`
abbrev pub requeue_now : CtrlResult
requeue_now = record { requeue = true; requeue_after = pos 0 }

abbrev pub ignore_not_found : Error → Option Error
ignore_not_found not_found = none
ignore_not_found (failed m) = some (failed m)

module _ {W : Type 0} where
  unfoldable pub pure : {A : Type 0} → A → Action W A
  pure a w = record { flow = next a; world = w; events = [] }

  -- `return result, err`
  unfoldable pub return : {A : Type 0} → CtrlResult → Option Error → Action W A
  return r e w = record { flow = exit (record { result = r; error = e }); world = w; events = [] }

  unfoldable pub crash : {A : Type 0} → Action W A
  crash w = record { flow = panic; world = w; events = [] }

  -- A call of something outside: its answer, and the event that it makes.
  unfoldable pub call : {A : Type 0} → (W → A × W) → List Event → Action W A
  call f es w = let (a, w') = f w in record { flow = next a; world = w'; events = es }

  abbrev pub after : {B : Type 0} → List Event → Ran W B → Ran W B
  after es r = record { flow = r.flow; world = r.world; events = es ++ r.events }

  -- The rest of an action, after the calls `es`.
  abbrev pub continue : {A B : Type 0} → Flow A → W → List Event → (A → Action W B) → Ran W B
  continue (next a) w es f = after es (f a w)
  continue (exit r) w es f = record { flow = exit r; world = w; events = es }
  continue panic w es f = record { flow = panic; world = w; events = es }

  infixl 5 ◌>>=◌ ◌>>◌
  -- opening this opens `pure`, `return`, `crash` and `call` too
  unfoldable pub ◌>>=◌ : {A B : Type 0} → Action W A → (A → Action W B) → Action W B
  unfolding pure return crash call
  ◌>>=◌ m f w = let r = m w in continue r.flow r.world r.events f

  abbrev pub ◌>>◌ : {B : Type 0} → Action W (Unit {0}) → Action W B → Action W B
  m >> k = m >>= λ _. k

  -- `defer`: the calls of the deferred function follow, however the action ends.
  unfoldable pub deferring : {A : Type 0} → List Event → Action W A → Action W A
  deferring es m w =
      let r = m w in record { flow = r.flow; world = r.world; events = r.events ++ es }

  -- `if err != nil { return ctrl.Result{}, err }`
  abbrev pub or_fail : {A : Type 0} → Result A → Action W A
  or_fail (ok a) = pure a
  or_fail (err e) = return no_requeue (some e)

  -- `if err != nil { return ctrl.Result{}, client.IgnoreNotFound(err) }`
  abbrev pub or_skip : {A : Type 0} → Result A → Action W A
  or_skip (ok a) = pure a
  or_skip (err e) = return no_requeue (ignore_not_found e)

  -- A step that may panic.
  abbrev pub or_crash : {A : Type 0} → Option A → Action W A
  or_crash (some a) = pure a
  or_crash none = crash

  -- `for _, x := range xs`
  unfoldable pub for_each : {A : Type 0} → List A → (A → Action W (Unit {0})) → Action W (Unit {0})
  for_each [] f = pure tt
  for_each (x ∷ xs) f = f x >> for_each xs f
