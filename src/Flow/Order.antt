-- ===== src/Flow/Order.antt =====
-- Runs that write to etcd before they write anything else.
use vitastor_operator.Prelude.{List, [], ◌∷◌, ◌++◌, All, arith}
use vitastor_operator.Flow.{
  Event, file_opened, file_closed, etcd_dialled, etcd_closed, etcd_put, Flow, next, exit, panic,
  Action, continue, ◌>>=◌, deferring,
}
use vitastor_operator.Flow.Rules.{Emits}

-- The calls of the configuration and of the etcd client.
abbrev pub IsConnection : Event → Type 0
IsConnection (file_opened f) = Unit
IsConnection (file_closed f) = Unit
IsConnection etcd_dialled = Unit
IsConnection etcd_closed = Unit
IsConnection _ = ⊥

-- Before the first put there is no other call than those of the connection.
abbrev pub AfterPut : List Event → Type 0
AfterPut [] = Unit
AfterPut (etcd_put k v ∷ es) = Unit
AfterPut (e ∷ es) = IsConnection e × AfterPut es

-- There is a put, and before it no other call.
abbrev pub HasPut : List Event → Type 0
HasPut [] = ⊥
HasPut (etcd_put k v ∷ es) = Unit
HasPut (e ∷ es) = IsConnection e × HasPut es

connected-AfterPut : (es fs : List Event) → All IsConnection es → AfterPut fs → AfterPut (es ++ fs)
connected-AfterPut [] fs h k = k
connected-AfterPut (e ∷ es) fs h k = ground (arith, connected-AfterPut es fs h.1 k)

connected_alone : (es : List Event) → All IsConnection es → AfterPut es
connected_alone [] h = tt
connected_alone (e ∷ es) h = ground (arith, connected_alone es h.1)

AfterPut-connected : (es fs : List Event) → AfterPut es → All IsConnection fs → AfterPut (es ++ fs)
AfterPut-connected [] [] h k = tt
AfterPut-connected [] (f ∷ fs) h k = ground (arith, AfterPut-connected [] fs)
AfterPut-connected (e ∷ es) fs h k = ground (arith, AfterPut-connected es fs)

HasPut-append : (es fs : List Event) → HasPut es → AfterPut (es ++ fs)
HasPut-append [] fs h = absurd h
HasPut-append (e ∷ es) fs h = ground (arith, HasPut-append es fs)

-- An action goes on only after a put.
abbrev pub PutNext : {A : Type 0} → Flow A → List Event → Type 0
PutNext (next a) es = HasPut es
PutNext (exit r) es = AfterPut es
PutNext panic es = AfterPut es

-- Whatever the world answers, the action puts before it makes another call.
pub record PutsFirst {W A : Type 0} (m : Action W A) : Type 0 where
  pub at : (w : W) → AfterPut (m w).events

module _ {W A B : Type 0} where
  continue-silent :
      (r : Flow A) (w : W) (es : List Event) (f : A → Action W B)
      → All IsConnection es
      → ((a : A) → PutsFirst (f a))
      → AfterPut (continue r w es f).events
  continue-silent (next a) w es f h hf = connected-AfterPut es _ h ((hf a).at w)
  continue-silent (exit r) w es f h hf = connected_alone es h
  continue-silent panic w es f h hf = connected_alone es h

  pub PutsFirst-silent :
      (m : Action W A) (f : A → Action W B)
      → Emits IsConnection m
      → ((a : A) → PutsFirst (f a))
      → PutsFirst (m >>= f)
  unfolding ◌>>=◌
  PutsFirst-silent m f h hf = record {
    at = λ w. continue-silent (m w).flow (m w).world (m w).events f (h.at w) hf;
  }

  continue-put :
      (r : Flow A) (w : W) (es : List Event) (f : A → Action W B)
      → PutNext r es
      → AfterPut (continue r w es f).events
  continue-put (next a) w es f h = HasPut-append es _ h
  continue-put (exit r) w es f h = h
  continue-put panic w es f h = h

  pub PutsFirst-put :
      (m : Action W A) (f : A → Action W B)
      → ((w : W) → PutNext (m w).flow (m w).events)
      → PutsFirst (m >>= f)
  unfolding ◌>>=◌
  PutsFirst-put m f h = record {
    at = λ w. continue-put (m w).flow (m w).world (m w).events f (h w);
  }

module _ {W A : Type 0} where
  pub PutsFirst-deferring :
      (es : List Event) (m : Action W A)
      → All IsConnection es
      → PutsFirst m
      → PutsFirst (deferring es m)
  unfolding deferring
  PutsFirst-deferring es m h k = record { at = λ w. AfterPut-connected (m w).events es (k.at w) h }
