-- ===== src/Flow/Safety.antt =====
-- Rules for actions that do not panic.
use vitastor_operator.Prelude.{
  ◌≡◌, ◌≢◌, Bool, true, false, List, [], ◌∷◌, Option, none, some, refl, if◌then◌else◌,
}
use vitastor_operator.Flow.{
  WhenOk, or_crash, Result, ok, err, or_fail, or_skip, Error, CtrlResult, Event, Flow, next, exit,
  panic, Action, pure, return, call, continue, ◌>>=◌, deferring, for_each,
}

abbrev Post : {A : Type 0} → (A → Type 0) → Flow A → Type 0
Post Q (next a) = Q a
Post Q (exit r) = Unit
Post Q panic = ⊥

-- `m` does not panic, and if it goes on, its value has the property `Q`.
pub record Ensures {W A : Type 0} (Q : A → Type 0) (m : Action W A) : Type 0 where
  pub at : (w : W) → Post Q (m w).flow

-- No property of the value.
abbrev pub Any : {A : Type 0} → A → Type 0
Any a = Unit

module _ {W A : Type 0} {Q : A → Type 0} where
  pub Ensures-pure : (a : A) → Q a → Ensures Q (pure {W = W} a)
  unfolding pure
  Ensures-pure a h = record { at = λ w. h }

  pub Ensures-return : (r : CtrlResult) (e : Option Error) → Ensures Q (return {W = W} r e)
  unfolding return
  Ensures-return r e = record { at = λ w. tt }

  pub Ensures-call :
      (f : W → A × W) (es : List Event) → ((w : W) → Q (f w).0) → Ensures Q (call f es)
  unfolding call
  Ensures-call f es h = record { at = h }

  pub Ensures-if :
      (b : Bool) (m n : Action W A) → Ensures Q m → Ensures Q n → Ensures Q (if b then m else n)
  Ensures-if true m n hm hn = hm
  Ensures-if false m n hm hn = hn

  pub Ensures-deferring :
      (es : List Event) (m : Action W A) → Ensures Q m → Ensures Q (deferring es m)
  unfolding deferring
  Ensures-deferring es m h = record { at = λ w. h.at w }

  pub not_panic : (m : Action W A) → Ensures Q m → (w : W) → (m w).flow ≢ panic
  not_panic m h w e = go (m w).flow e (h.at w)
    where
      go : (r : Flow A) → r ≡ panic → Post Q r → ⊥
      go (next a) p q = cc
      go (exit r) p q = cc
      go panic p q = q

module _ {W A B : Type 0} {Q : A → Type 0} {R : B → Type 0} where
  continue-Post :
      (r : Flow A) (w : W) (es : List Event) (f : A → Action W B)
      → Post Q r
      → ((a : A) → Q a → Ensures R (f a))
      → Post R (continue r w es f).flow
  continue-Post (next a) w es f h hf = (hf a h).at w
  continue-Post (exit r) w es f h hf = tt
  continue-Post panic w es f h hf = h

  pub Ensures-bind :
      (m : Action W A) (f : A → Action W B)
      → Ensures Q m
      → ((a : A) → Q a → Ensures R (f a))
      → Ensures R (m >>= f)
  unfolding ◌>>=◌
  Ensures-bind m f hm hf = record {
    at = λ w. continue-Post (m w).flow (m w).world (m w).events f (hm.at w) hf;
  }

module _ {W A : Type 0} where
  pub Ensures-for_each :
      (xs : List A) (f : A → Action W (Unit {0}))
      → ((a : A) → Ensures Any (f a))
      → Ensures Any (for_each xs f)
  unfolding for_each
  Ensures-for_each [] f hf = Ensures-pure tt tt
  Ensures-for_each (x ∷ xs) f hf =
      Ensures-bind (f x) (λ _. for_each xs f) (hf x) (λ _ _. Ensures-for_each xs f hf)

-- The rules where nothing is said of the values.
module _ {W A : Type 0} where
  pub Ensures-ask : (f : W → A × W) (es : List Event) → Ensures Any (call f es)
  Ensures-ask f es = Ensures-call f es λ w. tt

  pub Ensures-or_fail : (r : Result A) → Ensures Any (or_fail {W = W} r)
  Ensures-or_fail (ok a) = Ensures-pure a tt
  Ensures-or_fail (err e) = Ensures-return _ _

  pub Ensures-or_skip : (r : Result A) → Ensures Any (or_skip {W = W} r)
  Ensures-or_skip (ok a) = Ensures-pure a tt
  Ensures-or_skip (err e) = Ensures-return _ _

-- A value that is looked at keeps its property, and what is there does not panic.
module _ {W A : Type 0} (Q : A → Type 0) where
  pub Ensures-ok : (r : Result A) → WhenOk Q r → Ensures Q (or_fail {W = W} r)
  Ensures-ok (ok a) h = Ensures-pure a h
  Ensures-ok (err e) h = Ensures-return _ _

  pub Ensures-found : (r : Result A) → WhenOk Q r → Ensures Q (or_skip {W = W} r)
  Ensures-found (ok a) h = Ensures-pure a h
  Ensures-found (err e) h = Ensures-return _ _

module _ {W A : Type 0} where
  pub Ensures-or_crash : (o : Option A) → o ≢ none → Ensures Any (or_crash {W = W} o)
  Ensures-or_crash none h = absurd (h refl)
  Ensures-or_crash (some a) h = Ensures-pure a tt

  pub Ensures-some : (a : A) → Ensures (λ b. b ≡ a) (or_crash {W = W} (some a))
  Ensures-some a = Ensures-pure a refl

module _ {W A B : Type 0} where
  pub Ensures-then :
      (m : Action W A) (f : A → Action W B)
      → Ensures Any m
      → ((a : A) → Ensures Any (f a))
      → Ensures Any (m >>= f)
  Ensures-then m f hm hf = Ensures-bind m f hm (λ a _. hf a)

pub ruleset ensures_rules = (
  Ensures-then, Ensures-ask, Ensures-or_fail, Ensures-or_skip, Ensures-pure, Ensures-return,
  Ensures-deferring, Ensures-for_each,
)
