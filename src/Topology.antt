-- ===== src/Topology.antt =====
-- v2/src/ds4_infer/topology.py: the nodes, and which of them a profile is assigned to.
pub mod Groups
pub mod Assign
pub mod Known
pub mod Hosts
pub mod Chosen
pub mod Assigned
pub mod Least
pub mod Capacity
pub mod Tests
use ds4_on_spark.Prelude.{
  ℕ, String, Bool, true, false, not, ◌&&◌, ◌||◌, Option, none, some, List, [], ◌∷◌, map, any, ltb,
  ◌==◌, string-Eq, if◌then◌else◌, Result, ok, value_error, raise_if, ◌>>=◌, ◌>>◌,
}
use ds4_on_spark.Prelude.Int.{ℤ, pos, ltb_ℤ, pos_part}

pub record SparkNode : Type 0 where
  pub node_id : String
  pub roles : List String
  pub resident_profiles : List String
  pub default_capacity : ℕ
  pub immediate_reserved : Bool
  pub dynamic_load : Bool

-- The fields of a node as the file has them; a missing key is none.
pub record NodeJson : Type 0 where
  pub node_id : Option String
  pub roles : Option (List String)
  pub resident_profiles : Option (List String)
  pub default_capacity : Option ℤ
  pub immediate_reserved : Option Bool
  pub dynamic_load : Option Bool

abbrev need {ℓ} : {A : Type ℓ} → Option A → Result A
need none = value_error "spark node missing fields"
need (some a) = ok a

unfoldable pub node_from_json : NodeJson → Result SparkNode
node_from_json item = do
  node_id ← need item.node_id
  roles ← need item.roles
  resident_profiles ← need item.resident_profiles
  capacity ← need item.default_capacity
  immediate_reserved ← need item.immediate_reserved
  dynamic_load ← need item.dynamic_load
  raise_if (ltb_ℤ capacity (pos 1)) "spark node default_capacity must be positive"
  ok (record {
    node_id = node_id;
    roles = roles;
    resident_profiles = resident_profiles;
    default_capacity = pos_part capacity;
    immediate_reserved = immediate_reserved;
    dynamic_load = dynamic_load;
  })

abbrev pub elem : String → List String → Bool
elem x = any λ y. y == x

abbrev pub supports_profile : String → SparkNode → Bool
supports_profile profile_id node = elem profile_id node.resident_profiles

-- The node of an id: `_by_id`.
abbrev pub find_node : String → List SparkNode → Option SparkNode
find_node id [] = none
find_node id (n ∷ rest) = if n.node_id == id then some n else find_node id rest

abbrev pub node_ids_of : List SparkNode → List String
node_ids_of = map λ n. n.node_id

-- A dict from strings, as the list of its items.
abbrev pub look {ℓ} : {A : Type ℓ} → String → List (String × A) → Option A
look k [] = none
look k ((j, v) ∷ rest) = if j == k then some v else look k rest
