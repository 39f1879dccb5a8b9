-- ===== src/Gpu/Drain/Policy.antt =====
-- What `DrainGPU` may do to a node, command by command.
use composable_resource_oper.Common.{
  String, ◌<>◌, true, false, some, List, [], ◌∷◌, ◌≡◌, ◌⊎◌, split, trim_space, trim_prefix,
  to_lower, to_upper,
}
use composable_resource_oper.Api.{Result}
use composable_resource_oper.Cdi.{answered}
use composable_resource_oper.Gpu.{is_failed}
use composable_resource_oper.Gpu.Pods.{
  Tool, disable_persistence, check_users, set_maintenance, remove_file, reset_gpu, remove_device,
  query_drain, query_gpu, scan_proc, remove_module, Command, in_pod, on_host, Call, ran, started,
}
use composable_resource_oper.Gpu.Info.{Info, read_infos, read_proc}
use composable_resource_oper.Gpu.Reading.{read_drain_status, find_gpu}
use composable_resource_oper.Gpu.Drain.{fields}

-- Some call of the log is such a one.
abbrev pub Once : (Call → Type 0) → List Call → Type 0
Once P [] = ⊥
Once P (c ∷ log) = P c ⊎ Once P log

abbrev pub tool : Command → Tool
tool (in_pod t) = t
tool (on_host t) = t

-- A command has run and did not fail.
abbrev pub Succeeded : Tool → Call → Type 0
Succeeded t (ran p c o) = (tool c ≡ t) × (is_failed o ≡ false)
Succeeded t _ = ⊥

-- No process had the device file open.
abbrev pub Unused : String → Call → Type 0
Unused minor (ran p c o) = (tool c ≡ check_users minor) × (is_failed o ≡ false) × (o.stdout ≡ "")
Unused minor _ = ⊥

-- The GPU with the bus id was told to be draining.
abbrev pub FoundDraining : String → Call → Type 0
FoundDraining bus (ran p c o) =
    (tool c ≡ query_drain (trim_space bus)) × (read_drain_status o ≡ Result.ok true)
FoundDraining bus _ = ⊥

-- An output in which the GPU has the device minor and the bus id: the first in the notation of
-- nvidia-smi, the second in that of /proc.
abbrev pub Lists : String → String → String → Call → Type 0
Lists gpu minor bus (ran p (in_pod (query_gpu args)) o) =
    (args ≡ fields)
    × (infos : List Info) × (b : String) × (read_infos (split 44 fields) o ≡ answered infos)
    × (find_gpu gpu infos ≡ some (minor, b))
    × (bus ≡ trim_prefix b "0000")
Lists gpu minor bus (ran p (on_host scan_proc) o) =
    (infos : List Info) × (b : String) × (read_proc (split 44 fields) o ≡ Result.ok infos)
    × (find_gpu gpu infos ≡ some (minor, b))
    × (bus ≡ to_upper (trim_space b))
Lists gpu minor bus _ = ⊥

-- The GPU was put into maintenance mode, or was draining already.
abbrev pub Maintained : String → List Call → Type 0
Maintained bus log = Once (Succeeded (set_maintenance bus)) log ⊎ Once (FoundDraining bus) log

module _ (gpu minor bus : String) where
  -- The GPU was listed, and its device file was seen to be unused.
  abbrev pub Idle : List Call → Type 0
  Idle log = Once (Lists gpu minor bus) log × Once (Unused minor) log

  abbrev pub Fits : Tool → List Call → Type 0
  Fits (disable_persistence g) log = (g ≡ gpu) × Once (Lists gpu minor bus) log
  Fits (set_maintenance b) log = (b ≡ bus) × Idle log
  Fits (remove_file path) log =
      ((path ≡ "/dev/nvidia" <> minor) ⊎ (path ≡ "/run/nvidia/driver/dev/nvidia" <> minor))
      × Idle log
  Fits (reset_gpu b) log = (b ≡ bus) × Idle log × Maintained bus log
  Fits (remove_device b) log = (b ≡ to_lower bus) × Idle log × Maintained bus log
  Fits (remove_module m) log = Idle log × Maintained bus log
  Fits _ log = Unit {0}

  -- Persistence mode is switched off only for the GPU, once it was listed. Maintenance mode is set,
  -- device files and modules are removed, and the GPU is reset only after its device file was seen to
  -- be unused; modules are removed and the GPU is reset only in maintenance mode.
  abbrev pub DrainsCarefully : Call → List Call → Type 0
  DrainsCarefully (ran p c o) log = Fits (tool c) log
  DrainsCarefully (started p c) log = Fits (tool c) log
  DrainsCarefully _ log = Unit {0}
