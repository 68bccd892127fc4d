-- ===== src/Queue/Kv/Capacity.antt =====
-- `_reserve_legacy_kv`: what a node's KV entries add up to once a reservation has succeeded.
use ds4_on_spark.Prelude.{
  ℕ, ◌+◌, ◌-◌, ◌≤◌, ◌<◌, ◌≡◌, refl, sym, ◌∙◌, subst, String, Bool, true, ◌&&◌, some, List, [], ◌∷◌,
  ◌++◌, map, sum_by, leb, inl, inr, Bool-cases, Option-cases, ==_self, arith, if◌then◌else◌, ◌==◌,
  string-Eq, nat-Eq,
}
use ds4_on_spark.Sql.{select, delete}
use ds4_on_spark.Sql.Laws.{sum_by-order_by}
use ds4_on_spark.Queue.Tables.{KvEntry, is_idle}
use ds4_on_spark.Queue.Batches.{listed}
use ds4_on_spark.Queue.Kv.{
  fit, victims_to_fit, on_node, node_bytes, idle_entries, entry_cost, drop_keys, put_entry,
  new_entry, reserve_on_node,
}

-- The bytes of an entry whose key is dropped.
abbrev dropped_bytes : List String → KvEntry → ℕ
dropped_bytes ks e = if listed ks e.kv_key then e.bytes else 0

more_dropped :
    (k : String) (ks : List String) (es : List KvEntry)
    → sum_by (dropped_bytes ks) es ≤ sum_by (dropped_bytes (k ∷ ks)) es
more_dropped k ks [] = omega arith
more_dropped k ks (e ∷ es) = ground (arith, more_dropped k ks es)

-- What is left is at least the bytes in use less those of the chosen keys.
fit-left :
    (capacity need used : ℕ) (es : List KvEntry)
    → let (out, left) = fit capacity need used (map entry_cost es) in
      used ≤ left + sum_by (dropped_bytes out) es
unfolding fit
fit-left capacity need used [] = omega arith
fit-left capacity need used (e ∷ es) = elim (Bool-cases (leb (used + need) capacity)) [
  | inl stop ↦ rw stop (omega arith)
  | inr more ↦
      let rest = fit capacity need (used - e.bytes) (map entry_cost es) in
      let both : fit capacity need used (map entry_cost (e ∷ es)) ≡ (e.kv_key ∷ rest.0, rest.1) =
        rw more refl in
      subst (λ (x : List String × ℕ). used ≤ x.1 + sum_by (dropped_bytes x.0) (e ∷ es)) (sym both)
        (rw (==_self e.kv_key) (
          omega
            (arith, fit-left capacity need (used - e.bytes) es, more_dropped e.kv_key rest.0 es)))
]

idle_on_node :
    (node_id : String) (f : KvEntry → ℕ) (es : List KvEntry)
    → sum_by f (select (λ e. on_node node_id e && is_idle e.state) es)
      ≤ sum_by f (select (on_node node_id) es)
idle_on_node node_id f [] = omega arith
idle_on_node node_id f (e ∷ es) = ground (arith, idle_on_node node_id f es)

delete_both :
    (node_id k : String) (ks : List String) (es : List KvEntry)
    → delete
        (λ e. e.node_id == node_id && listed ks e.kv_key)
        (delete (λ e. e.node_id == node_id && e.kv_key == k) es)
      ≡ delete (λ e. e.node_id == node_id && listed (k ∷ ks) e.kv_key) es
delete_both node_id k ks [] = refl
delete_both node_id k ks (e ∷ es) = ground (arith, delete_both node_id k ks es)

delete_none :
    (node_id : String) (es : List KvEntry)
    → delete (λ e. e.node_id == node_id && listed [] e.kv_key) es ≡ es
delete_none node_id [] = refl
delete_none node_id (e ∷ es) = ground (arith, delete_none node_id es)

drop_keys-delete :
    (node_id : String) (ks : List String) (es : List KvEntry)
    → drop_keys node_id ks es ≡ delete (λ e. e.node_id == node_id && listed ks e.kv_key) es
unfolding drop_keys
drop_keys-delete node_id [] es = sym (delete_none node_id es)
drop_keys-delete node_id (k ∷ ks) es =
    drop_keys-delete node_id ks (delete (λ e. e.node_id == node_id && e.kv_key == k) es)
    ∙ delete_both node_id k ks es

bytes_after :
    (node_id : String) (ks : List String) (es : List KvEntry)
    → node_bytes node_id (delete (λ e. e.node_id == node_id && listed ks e.kv_key) es)
        + sum_by (dropped_bytes ks) (select (on_node node_id) es)
      ≡ node_bytes node_id es
unfolding node_bytes
bytes_after node_id ks [] = refl
bytes_after node_id ks (e ∷ es) = ground (arith, bytes_after node_id ks es)

delete_bytes :
    (node_id : String) (p : KvEntry → Bool) (e : KvEntry) (es : List KvEntry)
    → node_bytes node_id (delete p es ++ e ∷ []) ≤ node_bytes node_id es + e.bytes
unfolding node_bytes
delete_bytes node_id p e [] = ground arith
delete_bytes node_id p e (x ∷ es) = elim (Bool-cases (p x)) [
  | inl is ↦ rw is (ground (arith, delete_bytes node_id p e es))
  | inr out ↦ rw out (ground (arith, delete_bytes node_id p e es))
]

-- The bytes that stay are no more than the routine reckons.
node_bytes-drop_keys :
    (node_id : String) (capacity need : ℕ) (es : List KvEntry)
    → let (out, left) =
        fit capacity need (node_bytes node_id es) (map entry_cost (idle_entries node_id es)) in
      node_bytes node_id (drop_keys node_id out es) ≤ left
node_bytes-drop_keys node_id capacity need es =
    let used = node_bytes node_id es in
    let found = fit capacity need used (map entry_cost (idle_entries node_id es)) in
    let cost = dropped_bytes found.0 in
    let idle = select (λ e. on_node node_id e && is_idle e.state) es in
    let sorted : sum_by cost (idle_entries node_id es) ≡ sum_by cost idle =
      unfold idle_entries in sum_by-order_by cost _ idle in
    rw (drop_keys-delete node_id found.0 es) (
      omega (
        arith,
        fit-left capacity need used (idle_entries node_id es),
        sorted,
        idle_on_node node_id cost es,
        bytes_after node_id found.0 es,
      ))

put_bytes :
    (node_id : String) (e : KvEntry) (es : List KvEntry)
    → node_bytes node_id (put_entry e es) ≤ node_bytes node_id es + e.bytes
unfolding put_entry
put_bytes node_id e es =
    delete_bytes node_id (λ f. f.node_id == e.node_id && f.kv_key == e.kv_key) e es

-- Under a positive capacity, victims are found only if they make enough room.
victims_to_fit-room :
    (capacity need used : ℕ) (victims : List (String × ℕ)) (out : List String)
    → 0 < capacity
    → victims_to_fit capacity need used victims ≡ some out
    → ((fit capacity need used victims).0 ≡ out)
      × ((fit capacity need used victims).1 + need ≤ capacity)
unfolding victims_to_fit
victims_to_fit-room capacity need used victims out h r = ground (arith, h, r)

-- With a positive capacity, a reservation on a node that succeeds leaves the node's KV entries, the new
-- one among them, within the capacity, however full the node was before.
pub reserve_on_node-capacity :
    (node_id key request_id : String) (need capacity now : ℕ) (es es' : List KvEntry)
    → 0 < capacity
    → reserve_on_node node_id key request_id need capacity now es ≡ (true, es')
    → node_bytes node_id es' ≤ capacity
unfolding reserve_on_node
reserve_on_node-capacity node_id key request_id need capacity now es es' h r =
    let used = node_bytes node_id es in
    let victims = map entry_cost (idle_entries node_id es) in
    elim (Option-cases (victims_to_fit capacity need used victims)) [
      | inl e ↦ cc (rw (e, reserve_on_node) at r)
      | inr (out, e) ↦
          let e2 = new_entry node_id key request_id need now in
          let room = victims_to_fit-room capacity need used victims out h e in
          let stored : put_entry e2 (drop_keys node_id out es) ≡ es' =
            cc (rw (e, reserve_on_node) at r) in
          let kept =
            subst
              (λ ks.
                node_bytes node_id (drop_keys node_id ks es) ≤ (fit capacity need used victims).1)
              room.0 (node_bytes-drop_keys node_id capacity need es) in
          subst (λ xs. node_bytes node_id xs ≤ capacity) stored
            (omega (arith, room.1, kept, put_bytes node_id e2 (drop_keys node_id out es)))
    ]
