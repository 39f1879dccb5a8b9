-- ===== src/Nodes/Capacity.antt =====
-- When a node has room.
use composable_resource_oper.Common.{String, ℕ, ◌≤◌, true, Option, none, some, ◌≡◌, ◌↔◌, arith}
use composable_resource_oper.Api.{Result, NodeSpec}
use composable_resource_oper.Nodes.{Node, has_capacity, check_node_capacity_sufficient}

-- The quantity is known, and is no less than what is asked for.
abbrev pub Covers : Option ℕ → ℕ → Type 0
Covers none need = ⊥
Covers (some n) need = need ≤ n

abbrev pub HasRoom : NodeSpec → Node → Type 0
HasRoom spec node =
    Covers node.cpu spec.milli_cpu
    × Covers node.memory spec.memory
    × Covers node.pods spec.allowed_pod_number
    × Covers node.ephemeral_storage spec.ephemeral_storage

has_capacity-HasRoom :
    (spec : NodeSpec) (node : Node) → (has_capacity spec node ≡ Result.ok true) ↔ HasRoom spec node
unfolding has_capacity
has_capacity-HasRoom spec node = (λ h. ground (arith, h), λ h. ground (arith, h))

-- A node that was read has room exactly where each of its four capacities is known and is no less
-- than the number asked for. The CPU capacity, in cores, is compared with `milli_cpu` itself.
pub check_node_capacity_sufficient-HasRoom :
    (get_node : String → Result Node) (name : String) (spec : NodeSpec) (node : Node)
    → get_node name ≡ Result.ok node
    → (check_node_capacity_sufficient get_node name spec ≡ Result.ok true) ↔ HasRoom spec node
unfolding check_node_capacity_sufficient
check_node_capacity_sufficient-HasRoom get_node name spec node h =
    let (to, from) = has_capacity-HasRoom spec node in
    (λ k. to (ground (arith, k)), λ k. ground (arith, from k))
