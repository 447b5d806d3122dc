-- ===== src/Manager/Scheme.antt =====
-- The registration of the API group's types: api/v1/groupversion_info.go, the `init` functions of
-- api/v1 and that of main.go.
use vitastor_operator.Prelude.{
  String, ◌≡◌, refl, Bool, true, List, [], ◌∷◌, arith, All, any, ◌==◌, All-map, inl, inr,
}
use vitastor_operator.Flow.{Result, Result-cases, ok, err}

pub record GroupVersion : Type 0 where
  pub group : String
  pub version : String

abbrev pub group_version : GroupVersion
group_version = record { group = "control.vitastor.io"; version = "v1" }

-- The libraries' builders and schemes: a builder collects types of a group, and `AddToScheme` adds
-- them to a scheme.
pub record SchemeLibrary (B S : Type 0) : Type 0 where
  pub new_builder : GroupVersion → B
  pub register : List String → B → B
  pub add_to_scheme : B → S → Result S
  pub new_scheme : S
  pub add_client_go_types : S → Result S

module _ {B S : Type 0} (library : SchemeLibrary B S) where
  unfoldable pub register_cluster : B → B
  register_cluster b = library.register ("VitastorCluster" ∷ "VitastorClusterList" ∷ []) b

  unfoldable pub register_node : B → B
  register_node b = library.register ("VitastorNode" ∷ "VitastorNodeList" ∷ []) b

  unfoldable pub register_osd : B → B
  register_osd b = library.register ("VitastorOSD" ∷ "VitastorOSDList" ∷ []) b

  unfoldable pub register_pool : B → B
  register_pool b = library.register ("VitastorPool" ∷ "VitastorPoolList" ∷ []) b

  -- Go runs the `init` functions of a package's files in the order of the files' names.
  unfoldable pub scheme_builder : B
  scheme_builder =
      register_pool
        (register_osd (register_node (register_cluster (library.new_builder group_version))))

  add_control_types : Result S → Result S
  add_control_types (ok s) = library.add_to_scheme scheme_builder s
  add_control_types (err e) = err e

  -- The scheme that `main` has, or the error on which `init` panics.
  unfoldable pub init_scheme : Result S
  unfolding add_control_types
  init_scheme = add_control_types (library.add_client_go_types library.new_scheme)

-- A builder holds the types that were registered, and a scheme knows those of a builder that was
-- added to it without an error.
pub record Registers {B S : Type 0} (library : SchemeLibrary B S) : Type 0 where
  pub holds : B → String → Bool
  pub knows : S → String → Bool
  pub registered :
      (types : List String) (b : B) (t : String)
      → any (λ u. u == t) types ≡ true
      → holds (library.register types b) t ≡ true
  pub register_keeps :
      (types : List String) (b : B) (t : String)
      → holds b t ≡ true
      → holds (library.register types b) t ≡ true
  pub added :
      (b : B) (s s' : S) (t : String)
      → library.add_to_scheme b s ≡ ok s'
      → holds b t ≡ true
      → knows s' t ≡ true

-- The custom resources and their lists, which the controllers' client reads and writes.
abbrev pub resources : List String
resources =
    "VitastorCluster" ∷ "VitastorNode" ∷ "VitastorOSD" ∷ "VitastorOSDList" ∷ "VitastorPool" ∷ []

module _ {B S : Type 0} (library : SchemeLibrary B S) (law : Registers library) where
  builder_holds : All (λ t. law.holds (scheme_builder library) t ≡ true) resources
  unfolding scheme_builder register_cluster register_node register_osd register_pool
  builder_holds =
      let r = law.registered in
      let k = law.register_keeps in
      (
        k _ _ _ (k _ _ _ (k _ _ _ (r _ _ "VitastorCluster" refl))),
        (
          k _ _ _ (k _ _ _ (r _ _ "VitastorNode" refl)),
          (
            k _ _ _ (r _ _ "VitastorOSD" refl),
            (k _ _ _ (r _ _ "VitastorOSDList" refl), (r _ _ "VitastorPool" refl, tt)),
          ),
        ),
      )

  -- If `init` does not panic, the scheme knows the custom resources and the lists that the
  -- controllers read. A builder is to hold what was registered, and a scheme to know what was added.
  scheme_knows : (s : S) → init_scheme library ≡ ok s → All (λ t. law.knows s t ≡ true) resources
  unfolding init_scheme add_control_types
  scheme_knows s h = elim (Result-cases (library.add_client_go_types library.new_scheme)) [
    | inr (e, q) ↦ absurd (ground arith)
    | inl (s₀, q) ↦
        All-map _ _ (λ t k. law.added (scheme_builder library) s₀ s t (ground arith) k) resources
          builder_holds
  ]
