-- ===== src/Node/Agent/Paths.antt =====
-- The lists of paths that the reconciler makes of the agent's answers.
use vitastor_operator.Prelude.{
  ℕ, zero, suc, ◌*◌, String, ◌≡◌, ◌≢◌, refl, true, List, [], ◌∷◌, ◌++◌, map, arith, any, length,
  replicate, ◌==◌, eq_iff, eq_refl, length-append, ◌||◌, Bool-cases, inl, inr, ◌∙◌, sym,
}
use vitastor_operator.Node.Placement.{contains_str_list}
use vitastor_operator.Node.Agent.{appended}

module _ {ℓ} {A : Type ℓ} (name : A → String) where
  length-map_names : (xs : List A) → length (map name xs) ≡ length xs
  length-map_names [] = refl
  length-map_names (x ∷ xs) = omega (arith, length-map_names xs)

  length-replicate_empty : (n : ℕ) → length (replicate {A = String} n "") ≡ n
  length-replicate_empty zero = refl
  length-replicate_empty (suc n) = omega (arith, length-replicate_empty n)

  -- The list is twice as long as the agent's answer, since the elements are appended to a slice
  -- that was made with that length: its first half holds empty texts.
  pub length-appended : (xs : List A) → length (appended name xs) ≡ 2 * length xs
  unfolding appended
  length-appended xs = omega (
    arith,
    length-append {0} (replicate (length xs) "") (map name xs),
    length-replicate_empty (length xs),
    length-map_names xs,
  )

  contains-map :
      (xs : List A) (p : String) → contains_str_list (map name xs) p ≡ any (λ x. name x == p) xs
  unfolding contains_str_list
  contains-map [] p = refl
  contains-map (x ∷ xs) p = ground (arith, contains-map xs p)

  contains-padded :
      (n : ℕ) (ys : List String) (p : String)
      → p ≢ ""
      → contains_str_list (replicate n "" ++ ys) p ≡ contains_str_list ys p
  unfolding contains_str_list
  contains-padded zero ys p h = refl
  contains-padded (suc n) ys p h = ground (arith, contains-padded n ys p h, eq_iff "" p)

  -- A path that is not empty is in the list exactly when the agent's answer has it.
  contains-appended_path :
      (xs : List A) (p : String)
      → p ≢ ""
      → contains_str_list (appended name xs) p ≡ any (λ x. name x == p) xs
  unfolding appended
  contains-appended_path xs p h =
      rw (contains-padded (length xs) (map name xs) p h) (contains-map xs p)

  -- The empty path is in the list as soon as the agent's answer has any element.
  contains-appended_empty :
      (x : A) (xs : List A) → contains_str_list (appended name (x ∷ xs)) "" ≡ true
  unfolding appended contains_str_list
  contains-appended_empty x xs = ground (arith, eq_refl "")

  any_or :
      (xs : List A) (p : String)
      → p ≢ ""
      → any (λ x. name x == p || p == "") xs ≡ any (λ x. name x == p) xs
  any_or [] p h = refl
  any_or (x ∷ xs) p h = ground (arith, any_or xs p h, eq_iff p "")

  -- A path is in the list that is made of the agent's answer exactly when the answer has an element
  -- of that path, or has any element and the path is empty.
  contains-appended :
      (xs : List A) (p : String)
      → contains_str_list (appended name xs) p ≡ any (λ x. name x == p || p == "") xs
  unfolding appended contains_str_list
  contains-appended [] p = refl
  contains-appended (x ∷ xs) p = elim (Bool-cases (p == "")) [
    | inl e ↦ ground (arith, contains-appended_empty x xs, eq_iff p "")
    | inr e ↦
        let ne : p ≢ "" = λ q. ground (arith, eq_iff p "") in
        contains-appended_path (x ∷ xs) p ne ∙ sym (any_or (x ∷ xs) p ne)
  ]
