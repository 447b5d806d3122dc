-- ===== src/Config.antt =====
-- What the reconcilers share: `loadConfiguration` (controllers/vitastornode_controller.go), the
-- namespace, and the first lines of each `Reconcile`, up to the etcd client.
pub mod Connected
pub mod Rules
pub mod Safety
use vitastor_operator.Prelude.{String, ◌<>◌, [], ◌∷◌, none, some}
use vitastor_operator.Prelude.Int.{ℤ}
use vitastor_operator.Go.Strconv.{atoi}
use vitastor_operator.Flow.{
  Result, ok, err, failed, file_opened, file_closed, etcd_dialled, etcd_closed, Action, pure, ◌>>=◌,
  ◌>>◌, deferring, or_fail,
}
use vitastor_operator.Api.{Api, VitastorConfig}
use vitastor_operator.Api.Calls.{ask, emit}

module _ {W : Type 0} (api : Api W) where
  -- `os.LookupEnv` with a default
  abbrev pub env_or : String → String → String
  env_or name default = elim (api.host.lookup_env name) [ none ↦ default | some v ↦ v ]

  unfoldable pub namespace : String
  namespace = env_or "NAMESPACE" "vitastor-system"

  unfoldable pub read_configuration : String → Result String → Action W (Result VitastorConfig)
  read_configuration file (err e) = pure (err e)
  read_configuration file (ok text) =
      deferring (file_closed file ∷ [])
        (emit (file_opened file ∷ []) >> pure (ok (api.codec.decode_config text)))

  -- The decoder's error is not looked at.
  unfoldable pub load_configuration : String → Action W (Result VitastorConfig)
  unfolding read_configuration
  load_configuration file = do
    opened ← ask (api.host.open_file file)
    read_configuration file opened

  -- Connects to etcd, and closes the client at the end.
  unfoldable pub with_client :
      {A : Type 0} → (VitastorConfig → Action W A) → VitastorConfig → Action W A
  with_client body config = do
    dialled ← ask (api.etcd.dial config.vitastor_etcd_urls)
    or_fail dialled
    deferring (etcd_closed ∷ []) (emit (etcd_dialled ∷ []) >> body config)

  -- The first lines of a reconciliation, and the rest of it.
  unfoldable pub with_etcd : {A : Type 0} → (VitastorConfig → Action W A) → Action W A
  with_etcd body = do
    loaded ← load_configuration "/etc/vitastor/vitastor.conf"
    config ← or_fail loaded
    with_client body config

-- `strconv.Atoi` with its error.
abbrev pub parse_int : String → Result ℤ
parse_int raw = elim (atoi raw) [
  | none ↦ err (failed ("strconv.Atoi: parsing " <> raw))
  | some n ↦ ok n
]
