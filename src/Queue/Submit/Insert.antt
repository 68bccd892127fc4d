-- ===== src/Queue/Submit/Insert.antt =====
-- queue.py: the insert statements of both submissions, on the primary keys.
use ds4_on_spark.Prelude.{
  String, [], ◌∷◌, ◌++◌, ◌==◌, string-Eq, any, if◌then◌else◌, Result, ok, value_error, ◌>>=◌,
}
use ds4_on_spark.Prelude.Int.{int-Eq}
use ds4_on_spark.Json.{Json}
use ds4_on_spark.Queue.Tables.{Request, Batch, BatchState, Db}
use ds4_on_spark.Queue.Batches.{event}

abbrev pub new_batch : String → Batch
new_batch batch_id = record {
  batch_id = batch_id;
  state = BatchState.queued;
  request_count = 0;
  queued_count = 0;
  prefilling_count = 0;
  ready_count = 0;
  running_count = 0;
  completed_count = 0;
  failed_count = 0;
  cancelled_count = 0;
}

-- insert into batches, on the primary key batch_id
unfoldable pub insert_batch : String → Db → Result Db
insert_batch batch_id db =
    if any (λ b. b.batch_id == batch_id) db.batches
    then value_error "UNIQUE constraint failed: batches.batch_id"
    else ok (record db { batches = db.batches ++ new_batch batch_id ∷ [] })

-- insert into requests, on the primary key request_id
unfoldable pub insert_request : Request → Db → Result Db
insert_request row db =
    if any (λ r. r.request_id == row.request_id) db.requests
    then value_error "UNIQUE constraint failed: requests.request_id"
    else ok (record db { requests = db.requests ++ row ∷ [] })

-- The row and its event.
unfoldable pub submit_row : Request → Json → Db → Result Db
unfolding insert_request event
submit_row row payload db = do
  db1 ← insert_request row db
  ok (event row.request_id "submitted" row.state payload db1)
