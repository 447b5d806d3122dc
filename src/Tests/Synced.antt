-- ===== src/Tests/Synced.antt =====
-- Several runs of the node's reconciler at a concrete input.
use mathlib.Core.List.{Permᴰ, reverse}
use mathlib.Core.List.Permᴰ
use vitastor_operator.Prelude.{
  Option, ◌≡◌, refl, Bool, true, false, ◌&&◌, List, [], ◌∷◌, String, some, none, arith, All, ◌==◌,
  eq_refl,
}
use vitastor_operator.Prelude.Int.{pos}
use vitastor_operator.Go.Map.{Entries}
use vitastor_operator.Go.Strconv.{atoi, itoa}
use vitastor_operator.Types.{VitastorNode, VitastorNodeStatus, VitastorOsd}
use vitastor_operator.Flow.{ok}
use vitastor_operator.Api.{Api, VitastorConfig}
use vitastor_operator.Api.Memory.{World}
use vitastor_operator.Config.Connected.{Connection}
use vitastor_operator.Node.{reconcile}
use vitastor_operator.Go.Text.{contains}
use vitastor_operator.Node.Placement.{contains_osd}
use vitastor_operator.Node.Placement.Tree.{has_slash}
use vitastor_operator.Node.Agent.{appended}
use vitastor_operator.Node.Osds.{get_configuration}
use vitastor_operator.Node.Osds.Swept.{replace, remove}
use vitastor_operator.Node.Sync.{Held, add}
use vitastor_operator.Node.Sync.Store.{NodeStore, noting}
use vitastor_operator.Node.Sync.Runs.{found, IsAfter, NewNames}
use vitastor_operator.Node.Sync.UpToDate.{UpToDate}
use vitastor_operator.Node.Sync.Settles.{runs, node_reconciled}
use vitastor_operator.Node.Sync.Deployed.{IsRun, agent_osds-IsRun}
use vitastor_operator.Tests.Samples.{
  empty, server, node, agent, kube_node, old, gone, partition, placements,
}

abbrev same_list : List String → List String → Bool
same_list [] [] = true
same_list (x ∷ xs) (y ∷ ys) = x == y && same_list xs ys
same_list _ _ = false

same_list_refl : (xs : List String) → same_list xs xs ≡ true
same_list_refl [] = refl
same_list_refl (x ∷ xs) = ground (arith, eq_refl x, same_list_refl xs)

abbrev same_slice : Option (List String) → Option (List String) → Bool
same_slice none none = true
same_slice (some xs) (some ys) = same_list xs ys
same_slice _ _ = false

same_slice_refl : (xs : Option (List String)) → same_slice xs xs ≡ true
same_slice_refl none = refl
same_slice_refl (some xs) = same_list_refl xs

-- The status of the node that is stored.
abbrev status_in : Entries VitastorNode → VitastorNodeStatus
status_in [] = node.status
status_in ((k, n) ∷ nodes) = n.status

abbrev held_in : World → Held
held_in w = record { status = status_in w.nodes; osds = w.osds }

-- The server lists the objects the other way round; the node's agent lists two OSDs; the key of the placement map is always there.
abbrev serving : Api World
serving = record server {
  host = record server.host {
    http_get = λ url w. (ok 1, w);
    read_all = λ body w. (ok "answer", w);
  };
  etcd = record server.etcd {
    get = λ k w. (ok (record { count = 1; kvs = "placements" ∷ [] }), w);
    put = λ k v w. (ok tt, w);
  };
  kube = record server.kube {
    get_node = λ q w. (ok (noting node (status_in w.nodes)), w);
    get_kube_node = λ q w. (ok kube_node, w);
    list_pods = λ options w. (ok (agent ∷ []), w);
    list_osds = λ options w. (ok (reverse w.osds), w);
    create_osd = λ o w. (ok o, record w { osds = o ∷ w.osds });
    update_osd = λ o w. (ok o, record w { osds = replace o w.osds });
    delete_osd = λ o w. (ok tt, record w { osds = remove o.meta.name w.osds });
    update_node_status = λ n w. (ok n, record w { nodes = (n.meta.name, n) ∷ [] });
  };
  codec = record server.codec {
    decode_disks = λ text. record { name = "/dev/a"; disk_type = "disk"; children = [] } ∷ [];
    decode_osds = λ text. partition "/dev/a" (pos 1) ∷ partition "/dev/c" (pos 3) ∷ [];
    decode_placements = λ text. ok (some placements);
    encode_placements = λ m. ok "placements";
  };
  library = record server.library { equal_sorted = same_slice };
}

abbrev config : VitastorConfig
config = record { vitastor_etcd_urls = []; vitastor_prefix = "/vitastor" }

serving-NodeStore : NodeStore serving node "/vitastor/config/node_placement"
unfolding contains has_slash
serving-NodeStore = record {
  held = held_in;
  owned = λ m. m;
  sets_owner = λ m. refl;
  keeps_name = λ m. refl;
  gets_node = λ w. refl;
  get_node_keeps = λ w. refl;
  kube_node = kube_node;
  labelled = refl;
  gets_kube_node = λ w. refl;
  get_kube_node_keeps = λ w. refl;
  reads = λ w. (record { count = 1; kvs = "placements" ∷ [] }, placements, refl, refl, refl);
  read_keeps = λ w. refl;
  encodes = λ m. refl;
  put_ok = λ k v w. refl;
  put_keeps = λ k v w. refl;
  agent = agent;
  agents = [];
  lists_pods = λ w. refl;
  list_pods_keeps = λ w. refl;
  body = λ url. 1;
  text = λ url. "answer";
  gets_body = λ url w. refl;
  get_body_keeps = λ url w. refl;
  reads_body = λ url w. refl;
  read_body_keeps = λ url w. refl;
  same = same_slice_refl;
  update_status_ok = λ n w. refl;
  updates_status = λ n w. refl;
  lists = λ w. (reverse w.osds, refl, Permᴰ.reverse w.osds);
  list_keeps = λ w. refl;
  create_ok = λ osd w of h. refl;
  creates = λ osd w of h. refl;
  update_ok = λ osd w. refl;
  updates = λ osd w of. refl;
  delete_ok = λ osd w. refl;
  deletes = λ osd w. refl;
}

-- An OSD has no object, one has an old image, and one object is of no OSD.
abbrev behind : World
behind = record empty { osds = old ∷ gone ∷ [] }

new_names : NewNames serving node config serving-NodeStore (serving-NodeStore.held behind)
unfolding serving-NodeStore add get_configuration appended contains_osd itoa
new_names = ((refl, (refl, tt)), ((refl, tt), (tt, tt)))

serving-Connection : Connection serving config serving-NodeStore.held
unfolding serving-NodeStore
serving-Connection = record {
  text = "";
  opens = λ w. refl;
  open_keeps = λ w. refl;
  decodes = refl;
  dials = λ w. refl;
  dial_keeps = λ w. refl;
}

node_reconciled_example :
    (items : List VitastorOsd) × Permᴰ items (serving-NodeStore.held behind).osds
    × IsAfter serving node config serving-NodeStore items
        (serving-NodeStore.held behind)
        (serving-NodeStore.held (reconcile serving "n1" behind).world)
unfolding serving-NodeStore atoi
node_reconciled_example =
    node_reconciled serving node config serving-NodeStore serving-Connection (pos 15) refl refl
      behind new_names (refl, (refl, tt))

agent_osds-IsRun_example :
    All
      (IsRun node (serving-NodeStore.held (runs serving "n1" 3 behind)).osds)
      (found serving node config serving-NodeStore)
unfolding serving-NodeStore atoi appended
agent_osds-IsRun_example =
    agent_osds-IsRun serving node config serving-NodeStore serving-Connection (pos 15) refl refl 3
      behind new_names (refl, (refl, tt)) (ground arith)
