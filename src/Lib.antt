-- ===== src/Lib.antt =====
-- The control plane of ds4's inference service, v2/src/ds4_infer: the queue (queue.py and
-- queue_policy.py) with the external KV objects that it keeps (external_kv_shards.py), the pipeline
-- services (pipelines.py), the model profiles (profiles.py), the topology of nodes (topology.py) the
-- circuit breaker of the KV prefetch (jit_kv.py) and the governor of the GPUs (resource_governor.py).
--
-- InferenceQueue keeps batches of requests in the SQLite database queue.sqlite3. Clients submit
-- batches; a preparer binds queued requests to nodes and reserves KV memory for them; workers claim
-- ready requests under leases, beat while they run them, and report results; a reaper takes back what
-- crashed workers held. The methods share nothing but the database. An execution is modelled as a
-- sequence of calls, each of which ends before the next one begins. Calls that overlap are not: the
-- connections of _connect are deferred ones, so that a method that selects before its first write reads
-- outside its transaction, and another call may write in between (Queue/Tests shows what `cancel` then
-- does). A profile says which models
-- there are; the topology says which nodes run a profile, alone, in a group, or as the stages of a
-- pipeline service, and assigns each request; the layers of a pipeline's model and the bytes of a KV
-- object are split over its nodes. KV objects outside the queue are declared with one shard for each
-- stage, then leased, pinned, committed and evicted. The breaker stops prefetches that fail too often.
--
-- Files, each with the functions that it models:
-- - Prelude, Sql, Json: lists, results, integers, the SQL statements as functions on lists of rows,
--   and JSON values as json.loads gives them. Sql/Laws holds what the statements keep.
-- - Queue/Tables: `_init_db`, the tables as records. Queue/Batches: `_refresh_batch`, `_event`,
--   `_write_notice`, `_delete_request_kv`.
-- - Queue/Policy: queue_policy.py. Queue/Submit and its children: `submit_requests`,
--   `submit_cpu_requests`, `_existing_submission`, `_kv_need`; Submit/Appends is about the rows written.
-- - Queue/Prepare: `prepare_ready`. Queue/Kv: `_reserve_kv`, `_reserve_legacy_kv`,
--   `_reserve_pipeline_kv`, `_kv_victims_to_fit`, `_row_node_ids`.
-- - Queue/Ready, Queue/Shape, Queue/Tokens: the queries and the batching policy, `_queued_rows`,
--   `_ready_rows`, `_ready_shape_bucket`, `_limit_ready_rows_by_token_budget` and their helpers.
-- - Queue/Claim: `claim_ready_batch`. Queue/Leases: `_acquire_compute_lease`,
--   `_extend_compute_lease`, `_release_unused_compute_lease`, `_compute_lease_should_drain`,
--   `heartbeat`.
-- - Queue/Finish: `finish_request`, `retry_transport_failure`. Queue/Cancel: `cancel`, with what
--   it does to each row in Cancel/Applied and Cancel/Stops. Queue/Expire:
--   `requeue_expired_leases`, `_release_prefilling_locked`.
-- - Queue/Rows, Queue/Valid, Queue/Frame, Queue/Loops, Queue/Passes: the invariant of the tables and
--   the rules for the statements and the loops; the modules named Keeps apply them to the methods.
--   Queue/Steps: the calls as a step relation, and what any sequence of them does.
-- - Queue/Samples, Queue/Tests: concrete queues, and the theorems at work on them.
-- - Pipelines/Partition: `even_layer_partition`, `balanced_layer_partition` and its presets;
--   Partition/Laws and Partition/Best hold what they answer. Pipelines/Service: `PipelineService`,
--   `from_json`, `load_layer_partition_with_source`; Service/Valid holds what it accepts.
--   Pipelines/Service/Stages: `stages`, `stage_for_node`, `stage_for_index`, `cache_shards`,
--   `pipeline_service_batch_limit`. Pipelines/Load: `load_pipeline_services`.
-- - Profiles: `ProfileRegistry`; Profiles/Unambiguous is about `get`, Profiles/Choice about `resolve`.
-- - Topology: `SparkNode`. Topology/Groups: the constructor of `SparkTopology`, with its groups.
--   Topology/Assign: `assign_profile`, `_choose_resident_node`, `_experimental_node`. Topology/Known,
--   Hosts, Chosen, Assigned and Least hold what they answer. Topology/Capacity:
--   `estimate_capacity_by_profile`.
-- - JitKv: `JitKvCircuitBreaker`; JitKv/Steps has its calls as a step relation on a clock that does not
--   run back, JitKv/Opens and JitKv/Failures what any sequence of them does. JitKv/Prefetch:
--   `run_prefetch`, `disable_strict_kv`.
-- - ExternalKv: the tables kv_memory_objects, kv_memory_shards and kv_memory_leases of queue.py.
--   ExternalKv/Manifest: `validate_external_kv_shards` and the fingerprint of the layer partition.
--   ExternalKv/Calls: the methods of queue.py on them, from `upsert_external_kv_object` to
--   `external_kv_evict`; Calls/ReadBack: a declaration as the manifest's query reads it back; Calls/Commit: `external_kv_commit_shards`, `update_external_kv_shard`,
--   `_recover_prefetch_manifests_locked`; ExternalKv/Lookup: `external_kv_lookup`, `external_kv_list`.
-- - Governor: `GpuResourceGovernor`, its reasons and `before_refill`; Governor/Cooldown holds what a
--   refusal means for later calls.
-- - The modules named Tests and Samples hold concrete inputs.
--
-- A method takes the database and the time, and returns its answer and the new database; a call that
-- raises is a `value_error` and leaves the database as it was. Times are natural numbers of ticks. The
-- file system, the clock, uuid4, SHA-256, json.loads and json.dumps and the conversions of Python are
-- the fields of `Env` (Queue/ResultError), as is whether a stored payload is an inference request; the profile registry, the topology and the check of cache
-- references are the fields of `Routing` (Queue/Submit/Rows); the byte layout of a pipeline is a
-- function (`Layout`), which Pipelines/Service/Stages fills with `cache_shards`. No loop needs fuel: each
-- runs over the rows of a query, the items of a file, or a range.
--
-- The ceiling of a quotient of byte counts (`ceil_div`) is computed as Python's floats give it. Where the
-- code counts in floats otherwise, the model counts in whole units: the cost of a stage in hundredths of
-- a layer, the times of the breaker in milliseconds and its failure ratio in thousandths, the readings of
-- the governor in units of a fixed size; loads for a
-- capacity are compared by cross products. What is read from JSON files comes as records whose fields
-- have the types that the conversions expect, with none for a missing key. The functions of Python on
-- strings that the model does not compute, and the numbers behind JSON reals, are fields of `Strings`,
-- `Numbers` and `Names`; the HTTP call of a prefetch is its outcome (`Posted`).
--
-- Not modelled: status, usage, poll and collect and the pipeline telemetry of queue.py; the contracts and storage paths of a KV shard, which are names and hashes;
-- the reading of files and the environment; the sampling of the governor; the API, the workers and runners
-- and the deployment code, which are mostly network and process calls round what is modelled.
pub mod Prelude
pub mod Json
pub mod Sql
pub mod Queue
pub mod Pipelines
pub mod Profiles
pub mod Topology
pub mod JitKv
pub mod ExternalKv
pub mod Governor
