-- ===== src/Tests/Nodes.antt =====
-- Joins of nodes at concrete inputs.
use chainctl.Prelude.{◌≡◌, refl, true, none, some, []}
use chainctl.Result.{ok, err}
use chainctl.Text.{Str, codes}
use chainctl.Tokens.{Entropy, after}
use chainctl.Tokens.MemoryStore.{MemoryStore, new_memory_store}
use chainctl.Node.{Error, JoinCommandOptions, Host, World, memory_store, run_join}
use chainctl.Node.Joining.{Ends, run_join-Ends, run_join_without_cluster}

abbrev no_hash : Str → Str
no_hash s = s

abbrev no_entropy : Entropy
no_entropy = record { for_id = none; for_secret = none }

abbrev node_host : Host
node_host = record {
  text_of = λ e. codes "failed";
  emitter = ok (record { accepts = λ out line. true; has_logger = true });
  encode_error = none;
  parse_duration = λ text. some (after 0);
  ttl_text = λ d. [];
  format_time = λ t. [];
  user = [];
}

abbrev join_worker : JoinCommandOptions
join_worker = record {
  cluster_endpoint = codes "c";
  role = codes "worker";
  token = codes "ab.cd";
  labels = [];
  taints = [];
  output = codes "text";
}

abbrev fresh_world : World MemoryStore
fresh_world = record { lines = []; store = new_memory_store; printed = [] }

run_join-Ends_example :
    Ends node_host
      (memory_store no_hash 5 no_entropy)
      join_worker
      new_memory_store
      (run_join node_host (memory_store no_hash 5 no_entropy) join_worker fresh_world)
run_join-Ends_example =
    run_join-Ends node_host (memory_store no_hash 5 no_entropy) join_worker fresh_world

run_join_without_cluster_example :
    (e : Error) × ((run_join node_host
        (memory_store no_hash 5 no_entropy)
        join_worker
        fresh_world).0
      ≡ err e)
run_join_without_cluster_example =
    run_join_without_cluster no_hash 5 no_entropy node_host join_worker fresh_world refl
