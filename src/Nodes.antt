-- ===== src/Nodes.antt =====
-- internal/utils/nodes.go: nodes and daemon sets as the API server returns them.
pub mod Capacity
pub mod Restarting
use composable_resource_oper.Common.{
  String, ◌<>◌, ℕ, ◌-◌, Bool, true, false, Option, none, some, ◌||◌, ltb, leb, if◌then◌else◌,
}
use composable_resource_oper.Api.{Error, ErrorKind, Result, NodeSpec}

-- `Status.Capacity`, each quantity as `AsInt64` returns it: `none` if it does not fit.
pub record Node : Type 0 where
  pub name : String
  pub cpu : Option ℕ
  pub memory : Option ℕ
  pub pods : Option ℕ
  pub ephemeral_storage : Option ℕ

abbrev pub errorf : String → Error
errorf text = record { kind = ErrorKind.plain; message = text }

abbrev as_int64 {ℓ} : {A : Type ℓ} → String → Option ℕ → (ℕ → A) → (String → A) → A
as_int64 what none good bad = bad ("failed to convert node's " <> what <> " resource to int64")
as_int64 what (some n) good bad = good n

abbrev lacks : NodeSpec → ℕ → ℕ → ℕ → ℕ → Bool
lacks spec cpu memory pods storage =
    ltb cpu spec.milli_cpu
    || (ltb memory spec.memory
        || (ltb pods spec.allowed_pod_number || ltb storage spec.ephemeral_storage))

-- The second part of `CheckNodeCapacitySufficient`, for the node that was read.
unfoldable pub has_capacity : NodeSpec → Node → Result Bool
has_capacity spec node =
    as_int64 "CPU" node.cpu
      (λ cpu.
        as_int64 "memory" node.memory
          (λ memory.
            as_int64 "pod" node.pods
              (λ pods.
                as_int64 "ephemeral storage" node.ephemeral_storage
                  (λ storage.
                    Result.ok (if lacks spec cpu memory pods storage then false else true))
                  fail)
              fail)
          fail)
      fail
  where
    fail : String → Result Bool
    fail text = Result.err (errorf text)

module _ (get_node : String → Result Node) where
  -- `CheckNodeCapacitySufficient`
  unfoldable pub check_node_capacity_sufficient : String → NodeSpec → Result Bool
  unfolding has_capacity
  check_node_capacity_sufficient name spec = elim (get_node name) [
    | Result.err e ↦ Result.err e
    | Result.ok node ↦ has_capacity spec node
  ]

  -- `CheckNodeExisted`
  unfoldable pub check_node_existed : String → Option Error
  check_node_existed name = elim (get_node name) [ Result.err e ↦ some e | Result.ok node ↦ none ]

-- The status of a daemon set, and the annotation that `kubectl rollout restart` writes.
pub record DaemonSet : Type 0 where
  pub desired_number_scheduled : ℕ
  pub number_ready : ℕ
  pub current_number_scheduled : ℕ
  pub number_unavailable : ℕ
  pub number_misscheduled : ℕ
  pub restarted_at : Option String

-- What `RestartDaemonset` does with the daemon set that it read.
pub data Restart : Type 0 where
  skipped : Restart
  failed : Error → Restart
  -- the daemon set to send to the API server
  restarted : DaemonSet → Restart

abbrev is_unstable : DaemonSet → Bool
is_unstable d =
    ltb d.number_ready d.desired_number_scheduled
    || (ltb d.current_number_scheduled d.desired_number_scheduled
        || (ltb 0 d.number_unavailable || ltb 0 d.number_misscheduled))

-- RFC 3339 texts of times in seconds: `time.Parse` and `Format`.
module _ (parse : String → Option ℕ) (format : ℕ → String) where
  abbrev stamp : ℕ → DaemonSet → Restart
  stamp now d = restarted (record d { restarted_at = some (format now) })

  -- Lines 56 to 69. `time.Since` a time to come is negative, which `-` on ℕ takes as 0.
  unfoldable pub restart_stable : ℕ → DaemonSet → Restart
  restart_stable now d = elim d.restarted_at [
    | none ↦ stamp now d
    | some text ↦ elim (parse text) [
      | none ↦ failed (errorf "failed to parse restartedAt annotation for DaemonSet")
      | some last ↦ if leb (now - last) 10 then skipped else stamp now d
    ]
  ]

  unfoldable pub restart_daemonset : ℕ → DaemonSet → Restart
  unfolding restart_stable
  restart_daemonset now d =
      if leb d.desired_number_scheduled 0
      then skipped
      else if is_unstable d
      then skipped
      else restart_stable now d
