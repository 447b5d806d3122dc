-- ===== src/Config/Safety.antt =====
-- Panics of a reconciliation that uses etcd.
use vitastor_operator.Prelude.{String, ◌≡◌, refl}
use vitastor_operator.Flow.{Action, Result, ok, err, WhenOk, ◌>>=◌, deferring}
use vitastor_operator.Flow.Safety.{
  Ensures, Any, ensures_rules, Ensures-bind, Ensures-call, Ensures-ok, Ensures-then, Ensures-ask,
  Ensures-or_fail, Ensures-deferring,
}
use vitastor_operator.Api.{Api, VitastorConfig}
use vitastor_operator.Config.Connected.{config_file}
use vitastor_operator.Config.{read_configuration, load_configuration, with_client, with_etcd}

module _ {W : Type 0} (api : Api W) where
  read-safe : (file : String) (r : Result String) → Ensures Any (read_configuration api file r)
  unfolding read_configuration
  read-safe file (ok text) = search ensures_rules depth 9
  read-safe file (err e) = search ensures_rules depth 9

  load-safe : (file : String) → Ensures Any (load_configuration api file)
  unfolding load_configuration
  load-safe file = search (ensures_rules, read-safe) depth 9

  -- A reconciliation that uses etcd does not panic if its body does not.
  pub with_etcd-safe :
      {A : Type 0} (body : VitastorConfig → Action W A)
      → ((config : VitastorConfig) → Ensures Any (body config))
      → Ensures Any (with_etcd api body)
  unfolding with_etcd with_client
  with_etcd-safe body h = search (ensures_rules, load-safe, h) depth 14

  with_client-safe :
      {A : Type 0} (body : VitastorConfig → Action W A) (config : VitastorConfig)
      → Ensures Any (body config)
      → Ensures Any (with_client api body config)
  unfolding with_client
  with_client-safe body config h = Ensures-then _ _ (Ensures-ask _ _) λ dialled.
      Ensures-then _ _ (Ensures-or_fail dialled)
        λ _. Ensures-deferring _ _ (Ensures-then _ _ (search ensures_rules) λ _. h)

  -- What the configuration's file decodes to, at some time.
  abbrev pub IsConfigured : VitastorConfig → Type 0
  IsConfigured config =
      (text : String) × (w : W) × ((api.host.open_file config_file w).0 ≡ ok text)
      × (config ≡ api.codec.decode_config text)

  read-IsConfigured :
      (r : Result String) (w : W)
      → (api.host.open_file config_file w).0 ≡ r
      → Ensures (WhenOk IsConfigured) (read_configuration api config_file r)
  unfolding read_configuration ◌>>=◌ deferring
  read-IsConfigured (ok text) w e = record { at = λ v. (text, w, e, refl) }
  read-IsConfigured (err x) w e = record { at = λ v. tt }

  load-IsConfigured : Ensures (WhenOk IsConfigured) (load_configuration api config_file)
  unfolding load_configuration
  load-IsConfigured =
      Ensures-bind _ _
        (Ensures-call {Q = λ r. (w : W) × ((api.host.open_file config_file w).0 ≡ r)} _ _
          (λ w. (w, refl)))
        λ r (w, e). read-IsConfigured r w e

  -- The same, where the body does not panic with a configuration that the file gives.
  pub with_etcd-safe_configured :
      {A : Type 0} (body : VitastorConfig → Action W A)
      → ((config : VitastorConfig) → IsConfigured config → Ensures Any (body config))
      → Ensures Any (with_etcd api body)
  unfolding with_etcd
  with_etcd-safe_configured body h = Ensures-bind _ _ load-IsConfigured λ loaded k.
      Ensures-bind _ _ (Ensures-ok IsConfigured loaded k)
        λ config r. with_client-safe body config (h config r)
