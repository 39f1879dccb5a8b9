-- ===== src/Tests/Nodes.antt =====
-- Nodes and daemon sets, at concrete inputs.
use composable_resource_oper.Common.{
  String, ℕ, none, some, Option, true, false, refl, ◌≡◌, ◌↔◌, ◌<◌, ◌-◌,
}
use composable_resource_oper.Api.{Result, NodeSpec}
use composable_resource_oper.Nodes.{
  Node, check_node_capacity_sufficient, DaemonSet, restarted, restart_daemonset, restart_stable,
  has_capacity,
}
use composable_resource_oper.Nodes.Capacity.{HasRoom, check_node_capacity_sufficient-HasRoom}
use composable_resource_oper.Nodes.Restarting.{Settled, restart_daemonset-Settled}

abbrev node : Node
node = record {
  name = "node1";
  cpu = some 8;
  memory = some 64;
  pods = some 100;
  ephemeral_storage = some 500;
}

abbrev get_node : String → Result Node
get_node name = Result.ok node

-- Half a CPU
abbrev half : NodeSpec
half = record { milli_cpu = 500; memory = 1; ephemeral_storage = 1; allowed_pod_number = 1 }

check_node_capacity_sufficient-HasRoom_example :
    (check_node_capacity_sufficient get_node "node1" half ≡ Result.ok true) ↔ HasRoom half node
check_node_capacity_sufficient-HasRoom_example =
    check_node_capacity_sufficient-HasRoom get_node "node1" half node refl

-- A node of eight CPUs is said to lack the half.
half-lacking : check_node_capacity_sufficient get_node "node1" half ≡ Result.ok false
unfolding check_node_capacity_sufficient has_capacity
half-lacking = refl

abbrev settled : Option String → DaemonSet
settled at = record {
  desired_number_scheduled = 2;
  number_ready = 2;
  current_number_scheduled = 2;
  number_unavailable = 0;
  number_misscheduled = 0;
  restarted_at = at;
}

abbrev parse : String → Option ℕ
parse s = some 100

abbrev format : ℕ → String
format t = "t"

first : restart_daemonset parse format 100 (settled none) ≡ restarted (settled (some "t"))
unfolding restart_daemonset restart_stable
first = refl

restart_daemonset-Settled_example :
    Settled (settled none)
    × (settled (some "t") ≡ settled (some "t"))
    × ((text : String) (last : ℕ) → none ≡ some text → parse text ≡ some last → 10 < 100 - last)
restart_daemonset-Settled_example =
    restart_daemonset-Settled parse format 100 (settled none) (settled (some "t")) first
