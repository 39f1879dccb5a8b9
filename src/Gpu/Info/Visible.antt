-- ===== src/Gpu/Info/Visible.antt =====
-- Which GPUs `CheckGPUVisible` sees in the resource slices.
use composable_resource_oper.Common.{
  String, Bool, true, false, Option, none, some, List, [], ◌∷◌, ◌≡◌, ◌≢◌, ◌↔◌, ◌⊎◌, arith,
  string_eq, All, body,
}
use composable_resource_oper.Common.Dict.{Dict}
use composable_resource_oper.Api.{Result, ComposableResource}
use composable_resource_oper.Cdi.{Answer, answered}
use composable_resource_oper.Gpu.{SliceDevice, ResourceSlice, has_uuid, find_in_slice, find_place}
use composable_resource_oper.Gpu.Pods.{Env}
use composable_resource_oper.Gpu.Info.{carries, in_devices, in_slices, check_gpu_visible}

-- Every attribute is a text.
abbrev pub IsText : Dict (Option String) → Type 0
IsText [] = Unit {0}
IsText ((key, v) ∷ d) = (v ≢ none) × IsText d

abbrev pub AllText : List ResourceSlice → Type 0
AllText ss = All (λ s. All (λ d. IsText d.attributes) s.devices) ss

carries-has_uuid :
    (uuid : String) (d : Dict (Option String))
    → IsText d
    → carries uuid d ≡ answered (has_uuid uuid d)
unfolding carries
carries-has_uuid uuid [] h = ground arith
carries-has_uuid uuid ((key, none) ∷ d) h = absurd (ground arith)
carries-has_uuid uuid ((key, some v) ∷ d) (_, h) = ground (arith, carries-has_uuid uuid d h)

in_devices-find :
    (uuid : String) (s : ResourceSlice) (ds : List SliceDevice) (after : Answer Bool)
    → All (λ d. IsText d.attributes) ds
    → ((find_in_slice uuid s ds ≡ none) × (in_devices uuid ds after ≡ after))
      ⊎ ((find_in_slice uuid s ds ≢ none) × (in_devices uuid ds after ≡ answered true))
unfolding in_devices find_in_slice
in_devices-find uuid s [] after h = ground arith
in_devices-find uuid s (d ∷ ds) after (t, h) =
    ground (arith, carries-has_uuid uuid d.attributes t, in_devices-find uuid s ds after h)

in_slices-find :
    (uuid : String) (ss : List ResourceSlice)
    → AllText ss
    → ((find_place uuid ss ≡ none) × (in_slices uuid ss ≡ answered false))
      ⊎ ((find_place uuid ss ≢ none) × (in_slices uuid ss ≡ answered true))
unfolding in_slices find_place
in_slices-find uuid [] h = ground arith
in_slices-find uuid (s ∷ ss) (t, h) =
    ground (arith, in_devices-find uuid s s.devices (in_slices uuid ss) t, in_slices-find uuid ss h)

-- With DRA, when the resource slices were listed and all their attributes are texts, `CheckGPUVisible`
-- answers true where `CreateDeviceTaint` finds a place for the device of the resource, and false where it
-- finds none.
pub check_gpu_visible-find_place :
    (env : Env) (r : ComposableResource) (slices : List ResourceSlice)
    → env.list_slices ≡ Result.ok slices
    → AllText slices
    → ((find_place r.status.device_id slices ≢ none)
        ↔ ((body (check_gpu_visible env "DRA" r) []).0 ≡ answered true))
      × ((find_place r.status.device_id slices ≡ none)
          ↔ ((body (check_gpu_visible env "DRA" r) []).0 ≡ answered false))
unfolding check_gpu_visible
check_gpu_visible-find_place env r slices l t =
    let h = in_slices-find r.status.device_id slices t in
    ((λ k. ground arith, λ k. ground arith), (λ k. ground arith, λ k. ground arith))
