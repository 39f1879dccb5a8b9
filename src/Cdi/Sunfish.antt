-- ===== src/Cdi/Sunfish.antt =====
-- internal/cdi/sunfish/client.go: the client of the Sunfish composition service.
pub mod Requests
use composable_resource_oper.Common.{
  String, ◌<>◌, ℕ, Bool, Option, none, some, List, [], ◌∷◌, ◌==◌, ◌!=◌, ◌||◌, string_eq, nat_eq,
  if◌then◌else◌,
}
use composable_resource_oper.Api.{Error, Result, ComposableResource}
use composable_resource_oper.Nodes.{errorf}
use composable_resource_oper.Cdi.{DeviceInfo}

-- The count is an `int64`; the client writes 0 and 1.
pub record ProcessorRequest : Type 0 where
  pub request_count : ℕ
  pub proc_type : String
  pub model : String

pub record CompositionRequest : Type 0 where
  pub name : String
  pub members : List ProcessorRequest

-- A request to patch, with its address
abbrev pub Patch : Type 0
Patch = String × CompositionRequest

-- The environment, the making of a request, its sending (with the status of the response), and `%d` of fmt
pub record Env : Type 0 where
  pub endpoint : String
  pub new_request : String → Option Error
  pub patch : Patch → Result ℕ
  pub decimal : ℕ → String

-- The three results of `AddResource`
abbrev pub Added : Type 0
Added = String × String × Option Error

abbrev new_sunfish_client : String → String
new_sunfish_client ep =
    if ep != "" then ep else "composition-service.cro-system.svc.cluster.local:5060"

abbrev pub supported : String → Bool
supported model =
    (model == "Tesla-V100-PCIE-16GB")
    || ((model == "NVIDIA-A100-80GB-PCIe") || (model == "NVIDIA-A100-PCIE-40GB"))

-- The switch over the model, with the count of its one case
abbrev pub processor : String → ℕ → ProcessorRequest
processor model n =
    if supported model
    then record { request_count = n; proc_type = "GPU"; model = model }
    else record { request_count = 0; proc_type = ""; model = "" }

unfoldable pub composition : ComposableResource → ℕ → CompositionRequest
composition r n = record { name = r.spec.target_node; members = processor r.spec.model n ∷ [] }

module _ (env : Env) where
  abbrev pub url : String
  url = "http://" <> (new_sunfish_client env.endpoint <> "/redfish/v1/Systems/System")

  -- With the requests that were sent
  unfoldable pub send_patch_request : CompositionRequest → Added × List Patch
  send_patch_request cr = elim (env.new_request url) [
    | some e ↦ (("", "", some e), [])
    | none ↦ elim (env.patch (url, cr)) [
      | Result.err e ↦ (("", "", some e), (url, cr) ∷ [])
      | Result.ok status ↦
          if status != 200
          then (if status != 204
              then (
                ("", "", some (errorf ("http returned code " <> env.decimal status))),
                (url, cr) ∷ [],
              )
              else (("", "", none), (url, cr) ∷ []))
          else (("", "", none), (url, cr) ∷ [])
    ]
  ]

  unfoldable pub add_resource : ComposableResource → Added × List Patch
  unfolding send_patch_request composition
  add_resource r = send_patch_request (composition r 1)

  unfoldable pub remove_resource : ComposableResource → Option Error × List Patch
  unfolding send_patch_request composition
  remove_resource r =
      ((send_patch_request (composition r 0)).0.2, (send_patch_request (composition r 0)).1)

  unfoldable pub check_resource : ComposableResource → Option Error
  check_resource r = none

  unfoldable pub get_resources : Result (List DeviceInfo)
  get_resources = Result.ok []
