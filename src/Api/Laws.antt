-- ===== src/Api/Laws.antt =====
-- Documented behaviour of the code outside, as hypotheses of the theorems that need it.
use vitastor_operator.Prelude.{
  nat_eq, String, ◌≡◌, Bool, true, false, ◌||◌, List, [], ◌∷◌, All, any, ◌≢◌, ◌==◌, none, some,
  Option,
}
use vitastor_operator.Types.{
  Kind, Meta, NamespacedName, VitastorNode, VitastorOsd, Deployment, DaemonSet, StatefulSet,
  PodTemplate,
}
use vitastor_operator.Types.Images.{image_of}
use vitastor_operator.Flow.{Result, WhenOk, ok, err, not_found}
use vitastor_operator.Go.Map.{Entries, lookup}
use vitastor_operator.Index.{osd_index}
use vitastor_operator.Api.{
  EtcdResponse, first_value, Api, VitastorPoolConfig, VitastorNodePlacement, referred, crashed,
}

abbrev pub is_ok {ℓ} : {A : Type ℓ} → Result A → Bool
is_ok (ok a) = true
is_ok (err e) = false

-- How a server answers that holds the object, if there is one.
abbrev pub found {ℓ} : {A : Type ℓ} → Option A → Result A
found none = err not_found
found (some a) = ok a

-- The server accepts every update and every deletion of an OSD.
abbrev pub AcceptsOsds : {W : Type 0} → Api W → Type 0
AcceptsOsds {W} api =
    ((osd : VitastorOsd) (w : W) → is_ok (api.kube.update_osd osd w).0 ≡ true)
    × ((osd : VitastorOsd) (w : W) → is_ok (api.kube.delete_osd osd w).0 ≡ true)

-- An update that succeeds returns the deployment that was sent.
abbrev pub EchoesDeployments : {W : Type 0} → Api W → Type 0
EchoesDeployments {W} api =
    (d d' : Deployment) (w : W) → (api.kube.update_deployment d w).0 ≡ ok d' → d' ≡ d

-- To set the owner of an object does not rename it.
abbrev pub KeepsNames : {W : Type 0} → Api W → Type 0
KeepsNames api =
    (kind : Kind) (owner m m' : Meta)
    → api.library.set_controller_reference kind owner (some m) ≡ referred m'
    → m'.name ≡ m.name

-- The key that an object is got by.
abbrev pub key_of : Meta → NamespacedName
key_of m = record { namespace = m.namespace; name = m.name }

abbrev pub cluster_scoped : String → NamespacedName
cluster_scoped name = record { namespace = ""; name = name }

-- A server that holds VitastorNodes by their names, in a world `w` those that `has w` tells: a get of
-- one that it does not hold answers "not found" and no other error (a get of one that it holds may
-- fail), to read changes nothing, and a creation that succeeds adds the object's name.
pub record NodeStore {W : Type 0} (api : Api W) : Type 0 where
  pub has : W → String → Bool
  pub get_unknown :
      (name : String) (w : W)
      → has w name ≡ false
      → (api.kube.get_node (cluster_scoped name) w).0 ≡ err not_found
  pub get_known :
      (name : String) (w : W)
      → (api.kube.get_node (cluster_scoped name) w).0 ≡ err not_found
      → has w name ≡ false
  pub get_keeps :
      (name k : String) (w : W) → has (api.kube.get_node (cluster_scoped name) w).1 k ≡ has w k
  pub create_adds :
      (n : VitastorNode) (k : String) (w : W)
      → is_ok (api.kube.create_node n w).0 ≡ true
      → has (api.kube.create_node n w).1 k ≡ (n.meta.name == k || has w k)

-- The codec gives back the entries of a map of pools.
abbrev pub RoundTripsPools : {W : Type 0} → Api W → Type 0
RoundTripsPools api =
    (m : Entries VitastorPoolConfig) (text : String)
    → api.codec.encode_pools m ≡ ok text
    → (m' : Entries VitastorPoolConfig) × (api.codec.decode_pools text ≡ ok (some m'))
      × ((k : String) → lookup k m' ≡ lookup k m)

-- The codec gives back the entries of a map of placements.
abbrev pub RoundTripsPlacements : {W : Type 0} → Api W → Type 0
RoundTripsPlacements api =
    (m : Entries VitastorNodePlacement) (text : String)
    → api.codec.encode_placements m ≡ ok text
    → (m' : Entries VitastorNodePlacement) × (api.codec.decode_placements text ≡ ok (some m'))
      × ((k : String) → lookup k m' ≡ lookup k m)

-- A list with one field to match returns objects whose index has the field's value.
abbrev pub ListsByIndex : {W : Type 0} → Api W → Type 0
ListsByIndex {W} api =
    (name : String) (w : W) (items : List VitastorOsd)
    → (api.kube.list_osds
        (record { namespace = ""; labels = []; fields = (".spec.nodeName", name) ∷ [] }) w).0
      ≡ ok items
    → All (λ osd. any (λ v. v == name) (osd_index osd) ≡ true) items

-- A pod template has a container, and a deployment has a number of replicas.
abbrev pub HasContainer : PodTemplate → Type 0
HasContainer t = image_of t ≢ none

abbrev pub IsServed : Deployment → Type 0
IsServed d = HasContainer d.template × (d.replicas ≢ none)

-- An answer that counts keys has the value of the first.
abbrev pub IsCounted : EtcdResponse → Type 0
IsCounted raw = nat_eq raw.count 0 ≡ false → first_value raw ≢ none

-- To set the owner of an object that is not nil does not panic.
abbrev pub SetsOwners : {W : Type 0} → Api W → Type 0
SetsOwners api =
    (kind : Kind) (owner m : Meta)
    → api.library.set_controller_reference kind owner (some m) ≢ crashed

-- The API server's validation and defaults hold of every workload that it returns, and to set the
-- owner of an object that is not nil does not panic.
pub record ServesWorkloads {W : Type 0} (api : Api W) : Type 0 where
  pub got_deployment :
      (q : NamespacedName) (w : W) → WhenOk IsServed (api.kube.get_deployment q w).0
  pub updated_deployment :
      (d : Deployment) (w : W) → WhenOk IsServed (api.kube.update_deployment d w).0
  pub got_daemon_set :
      (q : NamespacedName) (w : W)
      → WhenOk (λ (d : DaemonSet). HasContainer d.template) (api.kube.get_daemon_set q w).0
  pub got_stateful_set :
      (q : NamespacedName) (w : W)
      → WhenOk (λ (s : StatefulSet). HasContainer s.template) (api.kube.get_stateful_set q w).0
  pub owner_is_set : SetsOwners api
