-- ===== src/Queue/Leases.antt =====
-- queue.py: compute leases, one for each compute domain (`_acquire_compute_lease`,
-- `_extend_compute_lease`, `_release_unused_compute_lease`, `_compute_lease_should_drain`), and
-- `heartbeat`.
pub mod Domains
pub mod Keeps
use Prim.Native.String.{◌++◌ as text_append}
use ds4_on_spark.Prelude.{
  ℕ, ◌+◌, String, Bool, false, not, ◌&&◌, ◌||◌, Option, none, some, List, [], ◌∷◌, ◌++◌, ◌==◌,
  string-Eq, nat-Eq, count, any, length, ltb, leb, holds, head?, if◌then◌else◌,
}
use ds4_on_spark.Sql.{select, update, delete}
use ds4_on_spark.Queue.ResultError.{Env}
use ds4_on_spark.Queue.Tables.{State, Request, ComputeLease, Db, State-Eq, non_empty, or_empty}

-- f"{leased_by}:{tag}:{uuid.uuid4().hex}"
unfoldable pub lease_name : String → String → String → String
lease_name leased_by tag hex =
    text_append leased_by (text_append ":" (text_append tag (text_append ":" hex)))

-- select 1 from requests where state in ('queued','ready') and selected_compute_domain=? and
-- coalesce(selected_service_id,'') != ?
unfoldable pub other_service_waits : List Request → String → String → Bool
other_service_waits rs domain service_id =
    any
      (λ r.
        (r.state == State.queued || r.state == State.ready)
        && holds r.selected_compute_domain domain
        && not (or_empty r.selected_service_id == service_id))
      rs

unfoldable pub should_drain : Env → Db → ComputeLease → ℕ → Bool
unfolding other_service_waits
should_drain env db lease now =
    let created_at = if lease.created_at == 0 then now else lease.created_at in
    let service_id = or_empty lease.service_id in
    if leb env.quantum 0
    then false
    else if ltb now (created_at + env.quantum)
    then false
    else if service_id == "" || lease.compute_domain == ""
    then false
    else other_service_waits db.requests lease.compute_domain service_id

-- `None`, `False`, or the lease's id.
pub data Acquired : Type 0 where
  unneeded denied : Acquired
  held : String → Acquired

-- The `update compute_leases` that both methods issue.
abbrev pub extended : ℕ → ℕ → ℕ → ComputeLease → ComputeLease
extended now ttl n l = record l {
  lease_expires_at = now + ttl;
  heartbeat_at = now;
  request_count = l.request_count + n;
}

-- The branch on `existing`. Without one, the select has found no lease of the domain, so that the
-- insert meets no other row of its primary key.
unfoldable pub acquire_from :
    Env
    → (domain : String) (service_id : Option String) (leased_by : String) (ttl now n : ℕ)
    → Option ComputeLease
    → Db
    → Acquired × Db
acquire_from env domain service_id leased_by ttl now n (some existing) db =
    if or_empty existing.service_id == or_empty service_id && existing.leased_by == leased_by
    then (if should_drain env db existing now then (denied, db) else (
      held existing.compute_lease_id,
      record db {
        compute_leases =
            update
              (λ l. l.compute_domain == domain && l.compute_lease_id == existing.compute_lease_id)
              (extended now ttl n) db.compute_leases;
      },
    ))
    else (denied, db)
acquire_from env domain service_id leased_by ttl now n none db =
    let lease_id = lease_name leased_by "compute" (env.hex db.draws) in
    (
      held lease_id,
      record db {
        draws = db.draws + 1;
        compute_leases =
            db.compute_leases
            ++ record {
              compute_domain = domain;
              compute_lease_id = lease_id;
              service_id = service_id;
              leased_by = leased_by;
              lease_expires_at = now + ttl;
              heartbeat_at = now;
              request_count = n;
              created_at = now;
            }
              ∷ [];
      },
    )

-- `first` is rows[0] and `n` is len(rows).
unfoldable pub acquire_compute_lease :
    Env → (first : Request) (n : ℕ) (leased_by : String) (ttl now : ℕ) → Db → Acquired × Db
unfolding acquire_from lease_name
acquire_compute_lease env first n leased_by ttl now db =
    let domain = or_empty first.selected_compute_domain in
    let live = record db {
      compute_leases = delete (λ l. leb l.lease_expires_at now) db.compute_leases;
    } in
    let existing = head? (select (λ l. l.compute_domain == domain) live.compute_leases) in
    if domain == ""
    then (unneeded, db)
    else acquire_from env domain (non_empty first.selected_service_id) leased_by ttl now n existing
        live

abbrev extend_from :
    Env
    → (id domain service_id leased_by : String) (ttl now n : ℕ) → Option ComputeLease
    → Db
    → Acquired × Db
extend_from env id domain service_id leased_by ttl now n none db = (denied, db)
extend_from env id domain service_id leased_by ttl now n (some row) db =
    if not (row.compute_domain == domain)
    then (denied, db)
    else if not (row.leased_by == leased_by)
    then (denied, db)
    else if not (or_empty row.service_id == service_id)
    then (denied, db)
    else if should_drain env db row now
    then (denied, db)
    else (
      held id,
      record db {
        compute_leases =
            update (λ l. l.compute_lease_id == id) (extended now ttl n) db.compute_leases;
      },
    )

unfoldable pub extend_compute_lease :
    Env → (first : Request) (n : ℕ) (id leased_by : String) (ttl now : ℕ) → Db → Acquired × Db
extend_compute_lease env first n id leased_by ttl now db =
    let domain = or_empty first.selected_compute_domain in
    let row =
      head?
        (select (λ l. l.compute_lease_id == id && ltb now l.lease_expires_at) db.compute_leases) in
    if domain == ""
    then (unneeded, db)
    else if id == ""
    then (denied, db)
    else extend_from env id domain (or_empty first.selected_service_id) leased_by ttl now n row db

abbrev pub users : List Request → String → ℕ
users rs id = count (λ r. r.state == State.running && holds r.compute_lease_id id) rs

unfoldable pub release_id : Option String → Db → Db
release_id none db = db
release_id (some id) db =
    if users db.requests id == 0
    then record db { compute_leases = delete (λ l. l.compute_lease_id == id) db.compute_leases }
    else db

unfoldable pub release_unused_compute_lease : Option String → Db → Db
unfolding release_id
release_unused_compute_lease id db = release_id (non_empty id) db

-- `lease_id in (…)`
abbrev pub one_of : List String → Option String → Bool
one_of ids none = false
one_of ids (some a) = any (λ i. a == i) ids

-- The compute leases of the requests that beat.
beating : List Request → List String → List String
beating [] ids = []
beating (r ∷ rs) ids =
    let rest = beating rs ids in
    let mine =
      if r.state == State.running && one_of ids r.lease_id
      then non_empty r.compute_lease_id
      else none in
    elim mine [ none ↦ rest | some c ↦ c ∷ rest ]

unfoldable pub heartbeat : (lease_ids : List String) (ttl now : ℕ) → Db → ℕ × Db
unfolding beating
heartbeat lease_ids ttl now db =
    let ids = select (λ i. not (i == "")) lease_ids in
    let beats = λ (r : Request). r.state == State.running && one_of ids r.lease_id in
    let computes = beating db.requests ids in
    if length ids == 0 then (0, db) else (
      count beats db.requests,
      record db {
        requests =
            update beats
              (λ r. record r {
                heartbeat_at = some now;
                lease_expires_at = some (now + ttl);
                updated_at = now;
              })
              db.requests;
        compute_leases =
            update (λ l. one_of computes (some l.compute_lease_id))
              (λ l. record l { heartbeat_at = now; lease_expires_at = now + ttl })
              db.compute_leases;
      },
    )
