-- ===== src/Gpu/Reading.antt =====
-- internal/utils/gpus.go: what `DrainGPU` reads from the output of commands.
use composable_resource_oper.Common.{
  String, Bool, true, false, Option, none, some, List, [], ◌∷◌, ◌==◌, ◌||◌, string_eq, nat_eq,
  if◌then◌else◌, split, trim_space, trim_dots, contains_text, after_first, first_field, to_lower,
}
use composable_resource_oper.Api.{Result}
use composable_resource_oper.Nodes.{errorf}
use composable_resource_oper.Gpu.{Output, is_failed}
use composable_resource_oper.Gpu.Info.{Info, field}

-- Whether the line tells a state of drain, and which
abbrev told : String → Option Bool
told status =
    if contains_text status "not draining"
    then some false
    else if contains_text status "draining"
    then some true
    else none

abbrev told_by_line : String → Option Bool
told_by_line line =
    if contains_text line "drain"
    then (elim (after_first 58 line) [ none ↦ none | some s ↦ told (trim_dots (trim_space s)) ])
    else none

unfoldable pub told_by_lines : List String → Option Bool
told_by_lines [] = none
told_by_lines (line ∷ lines) = elim (told_by_line (to_lower (trim_space line))) [
  | some b ↦ some b
  | none ↦ told_by_lines lines
]

unfoldable pub read_drain_status : Output → Result Bool
unfolding told_by_lines
read_drain_status o =
    if is_failed o
    then Result.err (errorf "check gpu drain status command failed")
    else if trim_space o.stdout == ""
    then Result.err (errorf "nvidia-smi drain query returned empty output")
    else (elim (told_by_lines (split 10 (trim_space o.stdout))) [
      | some b ↦ Result.ok b
      | none ↦ Result.err (errorf "nvidia-smi drain query did not contain recognizable drain state")
    ])

-- The modules that the lines of lsmod name, and those that are then removed, in this order
unfoldable pub names_module : String → List String → Bool
names_module m [] = false
names_module m (line ∷ lines) = first_field line == m || names_module m lines

abbrev pub to_remove : (drm uvm : Bool) → List String
to_remove true true = "nvidia_drm" ∷ "nvidia_uvm" ∷ []
to_remove true false = "nvidia_drm" ∷ []
to_remove false true = "nvidia_uvm" ∷ []
to_remove false false = []

-- The device minor and the bus id of the GPU, from its first entry
unfoldable pub find_gpu : String → List Info → Option (String × String)
find_gpu gpu [] = none
find_gpu gpu (i ∷ is) =
    if field "gpu_uuid" i == gpu
    then some (field "device_minor" i, field "pci.bus_id" i)
    else find_gpu gpu is
