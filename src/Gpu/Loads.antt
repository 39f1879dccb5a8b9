-- ===== src/Gpu/Loads.antt =====
-- What the check for loads lets pass.
use composable_resource_oper.Common.{
  String, true, false, Bool-cases, Option, none, some, List, [], ◌∷◌, ◌≡◌, ◌≢◌, ◌⊎◌, inl, inr, refl,
  All, arith, string_eq, contains, split, trim_space, Option-cases,
}
use composable_resource_oper.Api.{Result}
use composable_resource_oper.Cdi.{answered}
use composable_resource_oper.Gpu.{
  AccountedAppInfo, Output, Env, parse_apps, runs_on, no_devices, read_apps, no_apps, none_on,
  check_in_agent, check_no_gpu_loads,
}

-- The fields of a line name an app, on another GPU than this one.
abbrev pub Elsewhere : String → List String → Type 0
Elsewhere gpu (uuid ∷ process ∷ rest) = trim_space uuid ≢ gpu
Elsewhere gpu _ = ⊥

-- The line is empty, or tells of an app on another GPU.
abbrev pub Spares : String → String → Type 0
Spares gpu line = (line ≡ "") ⊎ Elsewhere gpu (split 44 line)

-- nvidia-smi has found no devices, or it ran well, and each line of its output is as `P` says.
abbrev pub Idle : (String → Type 0) → Output → Type 0
Idle P o =
    (trim_space o.stdout ≡ "No devices were found")
    ⊎ ((o.stderr ≡ "") × (o.error ≡ none) × All P (split 10 (trim_space o.stdout)))

parse_apps-Spares :
    (gpu : String) (lines : List String) (apps : List AccountedAppInfo)
    → parse_apps lines ≡ some apps
    → runs_on gpu apps ≡ false
    → All (Spares gpu) lines
unfolding parse_apps runs_on
parse_apps-Spares gpu [] apps h f = tt
parse_apps-Spares gpu (line ∷ lines) apps h f = elim (Option-cases (parse_apps lines)) [
  | inl n ↦ ground (arith, n, h)
  | inr (rest, e) ↦ ground (arith, e, h, f, parse_apps-Spares gpu lines rest e)
]

parse_apps-empty :
    (lines : List String) → parse_apps lines ≡ some [] → All (λ line. line ≡ "") lines
unfolding parse_apps
parse_apps-empty [] h = tt
parse_apps-empty (line ∷ lines) h = elim (Option-cases (parse_apps lines)) [
  | inl n ↦ ground (arith, n, h)
  | inr ([], e) ↦ ground (arith, e, h, parse_apps-empty lines e)
  | inr (app ∷ rest, e) ↦ ground (arith, e, h)
]

no_apps-none :
    (node : String) (apps : List AccountedAppInfo) → no_apps node apps ≡ answered tt → apps ≡ []
no_apps-none node [] h = refl
no_apps-none node (app ∷ apps) h = absurd (ground arith)

module _ (o : Output) where
  abbrev lines : List String
  lines = split 10 (trim_space o.stdout)

  read_apps-Idle : (gpu : String) → read_apps o (none_on gpu) ≡ answered tt → Idle (Spares gpu) o
  read_apps-Idle gpu h = elim (Bool-cases (no_devices o)) [
    | inl n ↦ inl (ground (n, arith))
    | inr n ↦ elim (Option-cases (parse_apps lines)) [
      | inl e ↦ absurd (ground (h, n, e, arith))
      | inr (apps, e) ↦ inr (
        ground (h, n, arith),
        ground (h, n, arith),
        parse_apps-Spares gpu lines apps e (ground (h, n, e, arith)),
      )
    ]
  ]

  read_apps-Idle_node :
      (node : String) → read_apps o (no_apps node) ≡ answered tt → Idle (λ line. line ≡ "") o
  read_apps-Idle_node node h = elim (Bool-cases (no_devices o)) [
    | inl n ↦ inl (ground (n, arith))
    | inr n ↦ elim (Option-cases (parse_apps lines)) [
      | inl e ↦ absurd (ground (h, n, e, arith))
      | inr (apps, e) ↦ inr (
        ground (h, n, arith),
        ground (h, n, arith),
        parse_apps-empty lines (ground (h, n, e, no_apps-none node apps, arith)),
      )
    ]
  ]

module _ (env : Env) (node pod : String) where
  -- Without the driver's container, where the agent's pod is found and the GPUs of the node are read:
  -- a GPU that passes the check is not among them, or nvidia-smi has found no devices, or it ran well
  -- and each line of its output is empty or tells of an app on another GPU.
  pub check_no_gpu_loads-agent :
      (g : String) (gpus : List String)
      → env.driver_enabled ≡ Result.ok false
      → env.agent_pod node ≡ Result.ok pod
      → env.proc_gpus pod ≡ Result.ok gpus
      → check_no_gpu_loads env node (some g) ≡ answered tt
      → (contains gpus g ≡ false) ⊎ Idle (Spares g) (env.query_apps pod true)
  unfolding check_no_gpu_loads check_in_agent
  check_no_gpu_loads-agent g gpus d a p h = elim (Bool-cases (contains gpus g)) [
    | inl c ↦ inr (read_apps-Idle (env.query_apps pod true) g (ground (h, arith)))
    | inr c ↦ inl c
  ]

  -- With the driver's container, where its pod is found: a node that passes the check has no devices,
  -- or nvidia-smi ran well and its output has no line but empty ones, whichever GPU was asked for.
  pub check_no_gpu_loads-driver :
      (gpu : Option String)
      → env.driver_enabled ≡ Result.ok true
      → env.driver_pod node ≡ Result.ok pod
      → check_no_gpu_loads env node gpu ≡ answered tt
      → Idle (λ line. line ≡ "") (env.query_apps pod false)
  unfolding check_no_gpu_loads
  check_no_gpu_loads-driver gpu d p h =
      read_apps-Idle_node (env.query_apps pod false) node (ground (h, arith))
