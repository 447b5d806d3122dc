-- ===== src/Config/Rules.antt =====
-- Rules for the calls of a reconciliation that uses etcd.
use vitastor_operator.Prelude.{
  String, ◌≡◌, ◌⊎◌, inl, inr, refl, true, false, Bool, List, [], ◌∷◌, ◌++◌, arith, All, All-map,
  count, count-append,
}
use vitastor_operator.Flow.{
  Event, file_opened, file_closed, etcd_dialled, etcd_closed, Result, ok, err, Action, ◌>>=◌,
  deferring, or_fail,
}
use vitastor_operator.Flow.Order.{IsConnection}
use vitastor_operator.Flow.Rules.{Emits, Emits-weaken, >>=_join, emits_rules}
use vitastor_operator.Api.{Api, VitastorConfig}
use vitastor_operator.Config.{load_configuration, with_client, with_etcd}

-- A call of the connection, or one that the body may make under some prefix.
abbrev pub Managed : (String → Event → Type 0) → Event → Type 0
Managed P e = IsConnection e ⊎ ((prefix : String) × P prefix e)

abbrev is_dialled : Event → Bool
is_dialled etcd_dialled = true
is_dialled _ = false

abbrev is_hung_up : Event → Bool
is_hung_up etcd_closed = true
is_hung_up _ = false

abbrev is_file_opened : Event → Bool
is_file_opened (file_opened f) = true
is_file_opened _ = false

abbrev is_file_closed : Event → Bool
is_file_closed (file_closed f) = true
is_file_closed _ = false

-- As many clients and files were closed as were opened.
abbrev pub IsReleased : List Event → Type 0
IsReleased es =
    (count is_dialled es ≡ count is_hung_up es)
    × (count is_file_opened es ≡ count is_file_closed es)

IsReleased-append : (es fs : List Event) → IsReleased es → IsReleased fs → IsReleased (es ++ fs)
IsReleased-append es fs h k = omega (
  arith,
  count-append {0} is_dialled es fs,
  count-append {0} is_hung_up es fs,
  count-append {0} is_file_opened es fs,
  count-append {0} is_file_closed es fs,
)

-- Calls that neither open nor close are released.
unconnected : (e : Event) → ¬ IsConnection e → IsReleased (e ∷ [])
unconnected e h = ground arith

IsReleased-none : (es : List Event) → All (λ e. ¬ IsConnection e) es → IsReleased es
IsReleased-none [] h = (refl, refl)
IsReleased-none (e ∷ es) h =
    IsReleased-append (e ∷ []) es (unconnected e h.0) (IsReleased-none es h.1)

module _ {W : Type 0} (api : Api W) where
  load-Managed :
      (P : String → Event → Type 0) (file : String)
      → Emits (Managed P) (load_configuration api file)
  unfolding load_configuration deferring ◌>>=◌
  load-Managed P file = record { at = λ w. ground arith }

  load-IsReleased : (file : String) (w : W) → IsReleased (load_configuration api file w).events
  unfolding load_configuration deferring ◌>>=◌
  load-IsReleased file w = ground arith

module _ {W : Type 0} (api : Api W) (P : String → Event → Type 0) {A : Type 0}
    (body : VitastorConfig → Action W A)
    (calls : (config : VitastorConfig) → Emits (P config.vitastor_prefix) (body config)) where
  body-Managed : (config : VitastorConfig) → Emits (Managed P) (body config)
  body-Managed config =
      Emits-weaken (body config) (λ e h. inr (config.vitastor_prefix, h)) (calls config)

  hung_up : All (Managed P) (etcd_closed ∷ [])
  hung_up = (inl tt, tt)

  dialled : All (Managed P) (etcd_dialled ∷ [])
  dialled = (inl tt, tt)

  with_client-Managed : (config : VitastorConfig) → Emits (Managed P) (with_client api body config)
  unfolding with_client
  with_client-Managed config = search (emits_rules, body-Managed, hung_up, dialled, tt) depth 9

  -- The calls of a reconciliation are those of its body, and those of the configuration and of the
  -- client.
  pub Emits-with_etcd : Emits (Managed P) (with_etcd api body)
  unfolding with_etcd
  Emits-with_etcd = search (emits_rules, load-Managed api, with_client-Managed) depth 9

  module _ (apart : (prefix : String) (e : Event) → P prefix e → ¬ IsConnection e) where
    body-IsReleased : (config : VitastorConfig) (w : W) → IsReleased (body config w).events
    body-IsReleased config w = IsReleased-none (body config w).events (
        All-map (P config.vitastor_prefix) (λ e. ¬ IsConnection e) (apart config.vitastor_prefix)
          (body config w).events ((calls config).at w))

    with_client-IsReleased :
        (config : VitastorConfig) (w : W) → IsReleased (with_client api body config w).events
    unfolding with_client deferring ◌>>=◌
    with_client-IsReleased config w =
        let v = (api.etcd.dial config.vitastor_etcd_urls w).1 in
        let es = (body config v).events in
        ground (
          arith,
          body-IsReleased config v,
          count-append {0} is_dialled es (etcd_closed ∷ []),
          count-append {0} is_hung_up es (etcd_closed ∷ []),
          count-append {0} is_file_opened es (etcd_closed ∷ []),
          count-append {0} is_file_closed es (etcd_closed ∷ []),
        )

    loaded-IsReleased :
        (loaded : Result VitastorConfig) (w : W)
        → IsReleased ((or_fail loaded >>= with_client api body) w).events
    unfolding ◌>>=◌
    loaded-IsReleased (ok config) w = with_client-IsReleased config w
    loaded-IsReleased (err e) w = (refl, refl)

    -- However a reconciliation ends, the files and clients that it opened are closed.
    pub with_etcd-IsReleased : (w : W) → IsReleased (with_etcd api body w).events
    unfolding with_etcd
    with_etcd-IsReleased w =
        >>=_join IsReleased IsReleased-append (load_configuration api "/etc/vitastor/vitastor.conf")
          _ w (load-IsReleased api _ w) loaded-IsReleased
