-- ===== src/Resource/Adapter.antt =====
-- internal/controller/composableresource_adapter.go: which CDI provider the environment selects.
use composable_resource_oper.Common.{String, ◌<>◌, ◌&&◌}
use composable_resource_oper.Common.{if◌then◌else◌, ◌==◌, ◌!=◌, string_eq}
use composable_resource_oper.Api.{ErrorKind, Result}

pub data CdiProvider : Type 0 where
  sunfish fti_cm fti_fm : CdiProvider

abbrev errorf : String → Result CdiProvider
errorf text = Result.err (record { kind = ErrorKind.plain; message = text })

invalid : String → String → Result CdiProvider
invalid variable value =
    errorf ("the env variable " <> variable <> " has an invalid value: '" <> value <> "'")

fti_provider : String → Result CdiProvider
unfolding invalid
fti_provider api =
    if api == "CM"
    then Result.ok fti_cm
    else if api == "FM"
    then Result.ok fti_fm
    else invalid "FTI_CDI_API_TYPE" api

-- `NewComposableResourceAdapter`, over `os.Getenv`
unfoldable pub new_adapter : (String → String) → Result CdiProvider
unfolding invalid fti_provider
new_adapter getenv =
    let kind = getenv "DEVICE_RESOURCE_TYPE" in
    let provider = getenv "CDI_PROVIDER_TYPE" in
    if kind != "DEVICE_PLUGIN" && kind != "DRA"
    then invalid "DEVICE_RESOURCE_TYPE" kind
    else if provider == "SUNFISH"
    then Result.ok sunfish
    else if provider == "FTI_CDI"
    then (if getenv "FTI_CDI_CLUSTER_ID" == "" && kind == "DEVICE_PLUGIN"
        then errorf "The cluster in RKE2 does not support DEVICE_PLUGIN, please use DRA"
        else fti_provider (getenv "FTI_CDI_API_TYPE"))
    else invalid "CDI_PROVIDER_TYPE" provider
