-- ===== src/Cdi.antt =====
-- internal/cdi: what the clients of the two composition services share.
pub mod Cm
pub mod Fm
pub mod Token
pub mod Sunfish
use Prim.Native.Char.{Char, code}
use Prim.Native.String.{[], ◌∷◌}
use composable_resource_oper.Common.{
  split, String, ◌<>◌, ℕ, zero, suc, Bool, true, false, Option, none, some, List, [], ◌∷◌, ◌==◌,
  string_eq, nat_eq, if◌then◌else◌,
}
use composable_resource_oper.Common.Dict.{Dict, lookup}
use composable_resource_oper.Api.{Error, Result}
use composable_resource_oper.Nodes.{errorf}

-- `DeviceInfo` of internal/cdi/client.go
pub record DeviceInfo : Type 0 where
  pub node_name : String
  pub machine_uuid : String
  pub device_type : String
  pub model : String
  pub device_id : String
  pub cdi_device_id : String

-- A whole HTTP response. `Do` and `ReadAll` may fail, and that is a `Result.err`.
pub record Response : Type 0 where
  pub status_code : ℕ
  pub body : String

-- How a call ends: `panicked` is an index out of range.
pub data Answer (A : Type 0) : Type 0 where
  answered : A → Answer A
  failed : Error → Answer A
  panicked : Answer A

pub record Condition : Type 0 where
  pub column : String
  pub operator : String
  pub value : String

-- Some condition asks for the model.
unfoldable pub asks_for_model : String → List Condition → Bool
asks_for_model model [] = false
asks_for_model model (c ∷ cs) =
    if c.column == "model"
    then (if c.operator == "eq"
        then (if c.value == model then true else asks_for_model model cs)
        else asks_for_model model cs)
    else asks_for_model model cs

abbrev pub annotation : String → Dict String → String
annotation key d = elim (lookup key d) [ none ↦ "" | some v ↦ v ]

-- `int`, as far as the clients count
pub data ℤ : Type 0 where
  pos : ℕ → ℤ
  negsuc : ℕ → ℤ

abbrev pub sucℤ : ℤ → ℤ
sucℤ (pos n) = pos (suc n)
sucℤ (negsuc zero) = pos 0
sucℤ (negsuc (suc n)) = negsuc n

abbrev pub predℤ : ℤ → ℤ
predℤ (pos zero) = negsuc 0
predℤ (pos (suc n)) = pos n
predℤ (negsuc n) = negsuc (suc n)

-- What `s[:1]` tells of a status: "0", "1", "2" or another. Of the empty text it panics.
pub data Health : Type 0 where
  healthy warning critical unknown out_of_range : Health

unfoldable pub health : String → Health
health [] = out_of_range
health (c ∷ s) =
    if code c == 48
    then healthy
    else if code c == 49
    then warning
    else if code c == 50
    then critical
    else unknown

-- The annotations of a Node, of a Metal3Machine and of a BareMetalHost, the last two by namespace and
-- name.
pub record Cluster : Type 0 where
  pub get_node : String → Result (Dict String)
  pub get_machine : String → String → Result (Dict String)
  pub get_host : String → String → Result (Dict String)

abbrev missing : {A : Type 0} → String → String → String → Result A
missing key owner value = Result.err (
    errorf (
      "failed to get annotation '"
      <> (key <> ("' from " <> (owner <> (", now is '" <> (value <> "'")))))))

abbrev host_machine_id : String → Result (Dict String) → Result String
host_machine_id name (Result.err e) = Result.err e
host_machine_id name (Result.ok d) =
    let id = annotation "cluster-manager.cdi.io/machine" d in
    if id == ""
    then missing "cluster-manager.cdi.io/machine" ("BareMetalHost " <> name) id
    else Result.ok id

abbrev two : {A : Type 0} → List String → (String → String → A) → A → A
two (a ∷ b ∷ []) f other = f a b
two _ f other = other

module _ (cluster : Cluster) where
  abbrev machine_host : String → Result (Dict String) → Result String
  machine_host name (Result.err e) = Result.err e
  machine_host name (Result.ok d) =
      let value = annotation "metal3.io/BareMetalHost" d in
      two (split 47 value)
        (λ host_namespace host. host_machine_id host (cluster.get_host host_namespace host))
        (missing "metal3.io/BareMetalHost" ("Machine " <> name) value)

  abbrev node_machine : String → Result (Dict String) → Result String
  node_machine name (Result.err e) = Result.err e
  node_machine name (Result.ok d) =
      let value = annotation "machine.openshift.io/machine" d in
      two (split 47 value)
        (λ machine_namespace machine.
          machine_host machine (cluster.get_machine machine_namespace machine))
        (missing "machine.openshift.io/machine" ("Node " <> name) value)

  -- `getNodeMachineID`
  unfoldable pub annotated_machine_id : String → Result String
  annotated_machine_id name = node_machine name (cluster.get_node name)
