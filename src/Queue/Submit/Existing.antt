-- ===== src/Queue/Submit/Existing.antt =====
-- queue.py: `_existing_submission`, the answer to a batch id that is taken.
use ds4_on_spark.Prelude.{
  nat-Eq, String, Bool, true, false, not, ◌&&◌, Option, none, some, List, [], ◌∷◌, ◌==◌, string-Eq,
  all, length, map, same, if◌then◌else◌, Result, ok, ◌>>=◌, ◌>>◌, raise_if,
}
use ds4_on_spark.Prelude.Int.{ℤ, int-Eq}
use ds4_on_spark.Sql.{select, order_by}
use ds4_on_spark.Queue.Tables.{Request, Db, non_empty}
use ds4_on_spark.Queue.ResultError.{Env, request_json_hash}
use ds4_on_spark.Queue.Policy.{request_priority}
use ds4_on_spark.Queue.Text.{before}
use ds4_on_spark.Queue.Submit.Rows.{Incoming}

abbrev row_of : String → List Request → Option Request
row_of rid [] = none
row_of rid (r ∷ rs) = if r.request_id == rid then some r else row_of rid rs

abbrev same_ids : List String → List String → Bool
same_ids [] [] = true
same_ids (a ∷ as') (b ∷ bs) = a == b && same_ids as' bs
same_ids _ _ = false

-- The stored hash, or that of the stored payload; a text that is no JSON is hashed as it is.
abbrev stored_hash : Env → Request → String
stored_hash env row = elim (non_empty row.request_json_hash) [
  | some h ↦ h
  | none ↦
      request_json_hash env
        (elim row.request_json [ none ↦ env.broken_text row.request_id | some j ↦ env.dumps j ])
]

abbrev same_priority : Option ℤ → Option Request → Bool
same_priority prio none = false
same_priority prio (some row) = same prio (some row.priority)

abbrev same_payload : Env → Incoming → Option Request → Bool
same_payload env req none = false
same_payload env req (some row) = stored_hash env row == request_json_hash env (env.dumps req.raw)

priorities_agree : (priority : Option ℤ) → List Incoming → List Request → Result Bool
unfolding request_priority
priorities_agree priority [] rows = ok true
priorities_agree priority (req ∷ reqs) rows = do
  prio ← request_priority req.priority req.immediate priority
  rest ← priorities_agree priority reqs rows
  ok (same_priority prio (row_of req.request_id rows) && rest)

-- The three ways to differ raise.
check_same :
    Env
    → List Incoming
    → (priority : Option ℤ) → (rows : List Request) → (ids existing : List String) → Result Bool
unfolding priorities_agree
check_same env reqs priority rows ids existing = do
  raise_if (not (same_ids ids existing)) "batch_id already exists with different requests"
  agree ← priorities_agree priority reqs rows
  raise_if (not agree) "batch_id already exists with different priority for requests"
  raise_if (not (all (λ r. same_payload env r (row_of r.request_id rows)) reqs))
      "batch_id already exists with different request payloads"
  ok true

-- True where the batch is there and is the same.
unfoldable pub existing_submission :
    Env → (batch_id : String) → List Incoming → (priority : Option ℤ) → Db → Result Bool
unfolding check_same order_by before
existing_submission env batch_id reqs priority db =
    let rows = select (λ r. r.batch_id == batch_id) db.requests in
    let ids = order_by before (map (λ (r : Incoming). r.request_id) reqs) in
    let existing = order_by before (map (λ (r : Request). r.request_id) rows) in
    if length rows == 0 then ok false else check_same env reqs priority rows ids existing
