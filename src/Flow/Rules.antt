-- ===== src/Flow/Rules.antt =====
-- Rules for the calls that an action makes, one for each way to build an action.
use vitastor_operator.Prelude.{
  ◌≡◌, refl, Bool, true, false, List, [], ◌∷◌, ◌++◌, Option, none, some, All, All-append, All-map,
  if◌then◌else◌,
}
use vitastor_operator.Flow.{
  Error, Result, ok, err, CtrlResult, Event, Flow, next, exit, panic, Action, pure, return, crash,
  call, after, continue, ◌>>=◌, deferring, or_fail, or_skip, or_crash, for_each,
}

-- Every call that `m` makes has the property `P`, whatever the world answers.
pub record Emits {W A : Type 0} (P : Event → Type 0) (m : Action W A) : Type 0 where
  pub at : (w : W) → All P (m w).events

module _ {W A : Type 0} {P : Event → Type 0} where
  pub Emits-pure : (a : A) → Emits P (pure {W = W} a)
  unfolding pure
  Emits-pure a = record { at = λ w. tt }

  pub Emits-return : (r : CtrlResult) (e : Option Error) → Emits P (return {W = W} {A = A} r e)
  unfolding return
  Emits-return r e = record { at = λ w. tt }

  pub Emits-crash : Emits P (crash {W = W} {A = A})
  unfolding crash
  Emits-crash = record { at = λ w. tt }

  pub Emits-call : (f : W → A × W) (es : List Event) → All P es → Emits P (call f es)
  unfolding call
  Emits-call f es h = record { at = λ w. h }

  pub Emits-if :
      (b : Bool) (m n : Action W A) → Emits P m → Emits P n → Emits P (if b then m else n)
  Emits-if true m n hm hn = hm
  Emits-if false m n hm hn = hn

  pub Emits-or_fail : (r : Result A) → Emits P (or_fail {W = W} r)
  Emits-or_fail (ok a) = Emits-pure a
  Emits-or_fail (err e) = Emits-return _ _

  pub Emits-or_skip : (r : Result A) → Emits P (or_skip {W = W} r)
  Emits-or_skip (ok a) = Emits-pure a
  Emits-or_skip (err e) = Emits-return _ _

  pub Emits-or_crash : (o : Option A) → Emits P (or_crash {W = W} o)
  Emits-or_crash (some a) = Emits-pure a
  Emits-or_crash none = Emits-crash

  pub Emits-deferring :
      (es : List Event) (m : Action W A) → All P es → Emits P m → Emits P (deferring es m)
  unfolding deferring
  Emits-deferring es m h hm = record { at = λ w. All-append P (m w).events es (hm.at w) h }

module _ {W A B : Type 0} {P : Event → Type 0} where
  continue-All :
      (r : Flow A) (w : W) (es : List Event) (f : A → Action W B)
      → All P es
      → ((a : A) → Emits P (f a))
      → All P (continue r w es f).events
  continue-All (next a) w es f h hf = All-append P es (f a w).events h ((hf a).at w)
  continue-All (exit r) w es f h hf = h
  continue-All panic w es f h hf = h

  pub Emits-bind :
      (m : Action W A) (f : A → Action W B)
      → Emits P m
      → ((a : A) → Emits P (f a))
      → Emits P (m >>= f)
  unfolding ◌>>=◌
  Emits-bind m f hm hf = record {
    at = λ w. continue-All (m w).flow (m w).world (m w).events f (hm.at w) hf;
  }

module _ {W A : Type 0} {P : Event → Type 0} where
  pub Emits-for_each :
      (xs : List A) (f : A → Action W (Unit {0}))
      → ((a : A) → Emits P (f a))
      → Emits P (for_each xs f)
  unfolding for_each
  Emits-for_each [] f hf = Emits-pure tt
  Emits-for_each (x ∷ xs) f hf =
      Emits-bind (f x) (λ _. for_each xs f) (hf x) (λ _. Emits-for_each xs f hf)

pub Emits-weaken :
    {W A : Type 0} {P Q : Event → Type 0} (m : Action W A)
    → ((e : Event) → P e → Q e)
    → Emits P m
    → Emits Q m
Emits-weaken {P} {Q} m f h = record { at = λ w. All-map P Q f (m w).events (h.at w) }

pub ruleset emits_rules = (
  Emits-pure, Emits-return, Emits-crash, Emits-call, Emits-if, Emits-or_fail, Emits-or_skip,
  Emits-or_crash, Emits-deferring, Emits-bind, Emits-for_each,
)

-- Inversion: an action that goes on has gone on at each step, and its calls are theirs.
module _ {W A B : Type 0} where
  continue-next :
      (r : Flow A) (w : W) (es : List Event) (f : A → Action W B) {b : B}
      → (continue r w es f).flow ≡ next b
      → (a : A) × (r ≡ next a)
        × ((f a w).flow ≡ next b)
        × ((continue r w es f).events ≡ es ++ (f a w).events)
        × ((continue r w es f).world ≡ (f a w).world)
  continue-next (next a) w es f h = (a, refl, h, refl, refl)
  continue-next (exit r) w es f h = cc
  continue-next panic w es f h = cc

  pub >>=-eq-next :
      (m : Action W A) (f : A → Action W B) (w : W) {b : B}
      → ((m >>= f) w).flow ≡ next b
      → (a : A) × ((m w).flow ≡ next a)
        × ((f a (m w).world).flow ≡ next b)
        × (((m >>= f) w).events ≡ (m w).events ++ (f a (m w).world).events)
        × (((m >>= f) w).world ≡ (f a (m w).world).world)
  unfolding ◌>>=◌
  >>=-eq-next m f w h = continue-next (m w).flow (m w).world (m w).events f h

-- A property of all calls together, which two sequences have if each has it.
module _ {W A B : Type 0} (P : List Event → Type 0)
    (join : (es fs : List Event) → P es → P fs → P (es ++ fs)) where
  continue_join :
      (r : Flow A) (w : W) (es : List Event) (f : A → Action W B)
      → P es
      → ((a : A) (v : W) → P (f a v).events)
      → P (continue r w es f).events
  continue_join (next a) w es f h hf = join es (f a w).events h (hf a w)
  continue_join (exit r) w es f h hf = h
  continue_join panic w es f h hf = h

  pub >>=_join :
      (m : Action W A) (f : A → Action W B) (w : W)
      → P (m w).events
      → ((a : A) (v : W) → P (f a v).events)
      → P ((m >>= f) w).events
  unfolding ◌>>=◌
  >>=_join m f w h hf = continue_join (m w).flow (m w).world (m w).events f h hf

-- An action that goes on is followed by the rest.
module _ {W A B : Type 0} where
  continue_of_next :
      (r : Flow A) (w : W) (es : List Event) (f : A → Action W B) {a : A}
      → r ≡ next a
      → continue r w es f ≡ after es (f a w)
  continue_of_next (next b) w es f e = cc
  continue_of_next (exit r) w es f e = cc
  continue_of_next panic w es f e = cc

  pub >>=_of_next :
      (m : Action W A) (f : A → Action W B) (w : W) {a : A}
      → (m w).flow ≡ next a
      → (m >>= f) w ≡ after (m w).events (f a (m w).world)
  unfolding ◌>>=◌
  >>=_of_next m f w e = continue_of_next (m w).flow (m w).world (m w).events f e
