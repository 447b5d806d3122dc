-- ===== src/DeepCopy/Copier.antt =====
-- What a `DeepCopyInto` of a value promises.
use vitastor_operator.Prelude.{ℕ, ◌≤◌, ◌≡◌, refl, ◌∙◌, String, arith}
use vitastor_operator.DeepCopy.Arrays.{Arrays, Agree}

-- A copy reads as the original; its arrays are new, and no array that was there is changed. What a
-- value reads as is settled by the arrays that it refers to.
pub record Copier (A V : Type 0) : Type 1 where
  pub copy : A → Arrays String → A × Arrays String
  pub read : A → Arrays String → V
  pub Lives : ℕ → ℕ → A → Type 0
  pub widen : (a : A) (lo hi lo' hi' : ℕ) → Lives lo hi a → lo' ≤ lo → hi ≤ hi' → Lives lo' hi' a
  pub local :
      (a : A) (lo hi : ℕ) (h k : Arrays String)
      → Lives lo hi a
      → Agree lo hi h k
      → read a k ≡ read a h
  pub grows : (a : A) (h : Arrays String) → h.next ≤ (copy a h).1.next
  pub keeps : (a : A) (h : Arrays String) → Agree 0 h.next h (copy a h).1
  pub same :
      (a : A) (h : Arrays String) → Lives 0 h.next a → read (copy a h).0 (copy a h).1 ≡ read a h
  pub fresh : (a : A) (h : Arrays String) → Lives h.next (copy a h).1.next (copy a h).0

-- `*out = *in`, of a struct with no reference.
abbrev pub plain : {A : Type 0} → Copier A A
plain {A} = record {
  copy = λ a h. (a, h);
  read = λ a h. a;
  Lives = λ lo hi a. Unit;
  widen = λ a lo hi lo' hi' l p q. tt;
  local = λ a lo hi h k l e. refl;
  grows = λ a h. omega arith;
  keeps = λ a h p l u. refl;
  same = λ a h l. refl;
  fresh = λ a h. tt;
}

module _ {A V : Type 0} (c : Copier A V) where
  -- Writes to arrays that were there before do not reach the copy, and writes to new ones do not
  -- reach the original.
  pub copy_apart :
      (a : A) (h after after' : Arrays String)
      → c.Lives 0 h.next a
      → Agree h.next (c.copy a h).1.next (c.copy a h).1 after
      → Agree 0 h.next (c.copy a h).1 after'
      → (c.read (c.copy a h).0 after ≡ c.read a h) × (c.read a after' ≡ c.read a h)
  copy_apart a h after after' l e e' = (
    c.local (c.copy a h).0 h.next (c.copy a h).1.next (c.copy a h).1 after (c.fresh a h) e
        ∙ c.same a h l,
    c.local a 0 h.next h after' l (λ p x y. e' p x y ∙ c.keeps a h p x y),
  )
