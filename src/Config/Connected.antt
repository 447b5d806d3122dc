-- ===== src/Config/Connected.antt =====
-- The first lines of a `Reconcile` where the configuration is there and etcd answers.
use vitastor_operator.Prelude.{String, ◌≡◌, ◌∙◌, [], ◌∷◌, ◌++◌, arith}
use vitastor_operator.Flow.{
  ok, file_opened, file_closed, etcd_dialled, etcd_closed, Action, ◌>>=◌, deferring,
}
use vitastor_operator.Api.{Api, VitastorConfig}
use vitastor_operator.Config.{read_configuration, load_configuration, with_client, with_etcd}

abbrev pub config_file : String
config_file = "/etc/vitastor/vitastor.conf"

-- The configuration's file can be read and etcd can be dialled, and neither changes what is held.
pub record Connection {W S : Type 0} (api : Api W) (config : VitastorConfig) (held : W → S)
    : Type 0 where
  pub text : String
  pub opens : (w : W) → (api.host.open_file config_file w).0 ≡ ok text
  pub open_keeps : (w : W) → held (api.host.open_file config_file w).1 ≡ held w
  pub decodes : api.codec.decode_config text ≡ config
  pub dials : (w : W) → (api.etcd.dial config.vitastor_etcd_urls w).0 ≡ ok tt
  pub dial_keeps : (w : W) → held (api.etcd.dial config.vitastor_etcd_urls w).1 ≡ held w

module _ {W S : Type 0} (api : Api W) (config : VitastorConfig) (held : W → S)
    (c : Connection api config held) where
  -- The world that the body meets.
  abbrev pub met : W → W
  met w = (api.etcd.dial config.vitastor_etcd_urls (api.host.open_file config_file w).1).1

  pub met_keeps : (w : W) → held (met w) ≡ held w
  met_keeps w = c.dial_keeps (api.host.open_file config_file w).1 ∙ c.open_keeps w

  -- The run is the body's, between the calls that open and close.
  pub connected :
      {A : Type 0} (body : VitastorConfig → Action W A) (w : W)
      → with_etcd api body w ≡ record {
        flow = (body config (met w)).flow;
        world = (body config (met w)).world;
        events =
            file_opened config_file
            ∷ file_closed config_file
            ∷ etcd_dialled
            ∷ ((body config (met w)).events ++ etcd_closed ∷ []);
      }
  unfolding with_etcd load_configuration read_configuration with_client deferring ◌>>=◌
  connected body w =
      ground (arith, c.opens w, c.decodes, c.dials (api.host.open_file config_file w).1)
