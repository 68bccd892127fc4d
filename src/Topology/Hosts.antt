-- ===== src/Topology/Hosts.antt =====
-- topology.py: where the ids and the keys that are looked up stand.

use ds4_on_spark.Prelude.{
  String, true, some, List, [], ◌∷◌, In, ◌==◌, nat-Eq, string-Eq, eq_iff, ◌≡◌, sym, subst,
  some_injective, inl, inr, Bool-cases, Option-cases, arith, ==_self,
}
use ds4_on_spark.Pipelines.Service.{PipelineService}
use ds4_on_spark.Topology.{SparkNode, supports_profile, find_node, look}
use ds4_on_spark.Topology.Groups.{lists_profile}
use ds4_on_spark.Topology.Known.{Known}
use ds4_on_spark.Topology.Assign.{service_for}

-- One of the nodes has the id and lists the profile.
abbrev pub Hosts : List SparkNode → (profile_id node_id : String) → Type 0
Hosts nodes profile_id node_id =
    (n : SparkNode) × In n nodes × (n.node_id ≡ node_id) × (supports_profile profile_id n ≡ true)

pub In-Known : (n : SparkNode) (nodes : List SparkNode) → In n nodes → Known nodes n.node_id
In-Known n [] i = elim i [ ]
In-Known n (m ∷ nodes) (inl e) =
    subst (λ (x : SparkNode). Known (x ∷ nodes) n.node_id) e (rw (==_self n.node_id) (ground arith))
In-Known n (m ∷ nodes) (inr i) = ground (arith, In-Known n nodes i)

pub find_node-In :
    (id : String) (nodes : List SparkNode) (n : SparkNode)
    → find_node id nodes ≡ some n
    → In n nodes × (n.node_id ≡ id)
find_node-In id [] n h = cc h
find_node-In id (m ∷ nodes) n h = elim (Bool-cases (m.node_id == id)) [
  | inl here ↦
      let same_node : m ≡ n = some_injective (rw here at h) in
      (
        inl (sym same_node),
        subst (λ (x : SparkNode). x.node_id ≡ id) same_node ((eq_iff m.node_id id).0 here),
      )
  | inr there ↦ let (i, e) = find_node-In id nodes n (rw there at h) in (inr i, e)
]

pub lists-Hosts :
    (nodes : List SparkNode) (profile_id id : String)
    → lists_profile profile_id (find_node id nodes) ≡ true
    → Hosts nodes profile_id id
lists-Hosts nodes profile_id id h = elim (Option-cases (find_node id nodes)) [
  | inl missing ↦ cc (rw missing at h)
  | inr (n, found) ↦ let (i, e) = find_node-In id nodes n found in (n, i, e, rw found at h)
]

pub service_for-In :
    (profile_id : String) (services : List PipelineService) (s : PipelineService)
    → service_for profile_id services ≡ some s
    → In s services
service_for-In profile_id [] s h = cc h
service_for-In profile_id (x ∷ services) s h = elim (Bool-cases (x.profile_id == profile_id)) [
  | inl here ↦ inl (sym (some_injective (rw here at h)))
  | inr there ↦ inr (service_for-In profile_id services s (rw there at h))
]

pub look-In :
    {A : Type 0}
    → (k : String) (groups : List (String × A)) (v : A) → look k groups ≡ some v
    → In (k, v) groups
look-In k [] v h = cc h
look-In k ((j, w) ∷ groups) v h = elim (Bool-cases (j == k)) [
  | inl here ↦
      let same_key : j ≡ k = (eq_iff j k).0 here in
      let same_value : w ≡ v = some_injective (rw here at h) in inl (cc (same_key, same_value))
  | inr there ↦ inr (look-In k groups v (rw there at h))
]
