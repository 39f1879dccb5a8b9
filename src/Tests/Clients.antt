-- ===== src/Tests/Clients.antt =====
-- The clients of the composition services, at concrete inputs.
use composable_resource_oper.Common.{
  ◌+◌, ◌<◌, ℕ_discrete, string_dec, String, ℕ, none, some, List, [], ◌∷◌, false, refl, texts_differ,
  ◌≡◌, ◌≢◌, ◌↔◌, ◌⊎◌, contains, string_eq, ◌==◌, if◌then◌else◌, body,
}
use composable_resource_oper.Api.{Result, ResourceState, ComposableResource}
use composable_resource_oper.Cdi.{
  Cluster, Condition, answered, pos, annotated_machine_id, asks_for_model, health,
}
use composable_resource_oper.Cdi.Cm as Cm
use composable_resource_oper.Cdi.Fm as Fm
use composable_resource_oper.Cdi.Cm.Client as CmClient
use composable_resource_oper.Cdi.Fm.Client as FmClient
use composable_resource_oper.Cdi.Cm.Ownership.{add_resource-free, remove_resource-none, lists}
use composable_resource_oper.Cdi.Cm.Checking.{WellListed, check_resource-WellListed}
use composable_resource_oper.Cdi.Fm.Removal.{
  Listed, RemovesOwn, Well, remove_resource-Listed, check_resource-Well,
}
use composable_resource_oper.Cdi.Token.{Token, CachedToken, get_token}
use composable_resource_oper.Common.Dict.{Dict}
use composable_resource_oper.Cdi.Token.Request as TokenRequest
use composable_resource_oper.Cdi.Token.Request.{Decoder, request_token}
use composable_resource_oper.Cdi.Token.Genuine.{KeepsGenuine, GenuineResult, get_token-KeepsGenuine}
use composable_resource_oper.Cdi.Token.Rotation.{Stale, Rotated, get_token-sources}
use composable_resource_oper.Tests.Fixtures.{gpu}

abbrev token : Token
token = record { access_token = "t"; token_type = "Bearer"; refresh_token = "r"; expiry = 1000 }

abbrev new_token : ℕ → Result Token
new_token i = Result.ok token

abbrev no_token : CachedToken
no_token = record { token = none; requests = 0 }

abbrev with_token : CachedToken
with_token = record { token = some token; requests = 1 }

first : (get_token new_token 100 no_token).0 ≡ Result.ok token
unfolding get_token
first = refl

-- The kept token is about to expire.
get_token-sources_example :
    ((t : Token) × (some token ≡ some t)
      × (980 + 30 < t.expiry)
      × (get_token new_token 980 with_token ≡ (Result.ok t, with_token)))
    ⊎ (Stale new_token 980 (some token) × Rotated new_token 980 with_token)
get_token-sources_example = get_token-sources new_token 980 with_token

abbrev cluster : Cluster
cluster = record {
  get_node = λ _. Result.ok (("machine.openshift.io/machine", "ns/machine1") ∷ []);
  get_machine = λ _ _. Result.ok (("metal3.io/BareMetalHost", "ns/host1") ∷ []);
  get_host = λ _ _. Result.ok (("cluster-manager.cdi.io/machine", "m1") ∷ []);
}

abbrev a100 : List Condition
a100 = record { column = "model"; operator = "eq"; value = "A100" } ∷ []

abbrev held : ComposableResource
held = gpu "gpu1" ResourceState.detaching "d1" (some 3)

abbrev pub new : ComposableResource
new = gpu "gpu2" ResourceState.attaching "" none

abbrev cm_device : String → Cm.Device
cm_device id = record {
  device_uuid = id;
  status = "ADD_COMPLETE";
  status_reason = "";
  resource_uuid = "r1";
  resource_op_status = "0";
}

abbrev specs : List Cm.ResourceSpec
specs =
    record {
      spec_uuid = "s1";
      type = "gpu";
      conditions = a100;
      device_count = pos 2;
      devices = cm_device "d1" ∷ cm_device "d2" ∷ [];
    }
    ∷ []

abbrev pub cm : Cm.Env
cm = record {
  cluster = cluster;
  list_resources = Result.ok (held ∷ []);
  list_nodes = Result.ok ("node1" ∷ []);
  get_token = none;
  new_request = λ _. none;
  get_machine_page = λ _. Result.ok (record { status_code = 200; body = "" });
  resize = λ _ _. Result.ok (record { status_code = 200; body = "" });
  update_status = λ _. none;
  read_error = λ _. none;
  decimal = λ _. "";
  read_machine = λ _. some specs;
}

machine1 : annotated_machine_id cluster "node1" ≡ Result.ok "m1"
unfolding annotated_machine_id string_dec ℕ_discrete
machine1 = refl

page : CmClient.get_machine_info cm "m1" ≡ Result.ok specs
unfolding CmClient.get_machine_info ℕ_discrete
page = refl

abbrev given : String
given = (body (CmClient.add_resource cm) (record { resource = new; log = [] })).0.device_id

-- The unused device is given out.
given-some : given ≢ ""
unfolding CmClient.add_resource Cm.check_adding_resources Cm.find_available_device asks_for_model
    annotated_machine_id CmClient.get_machine_info string_dec ℕ_discrete
given-some h = texts_differ refl h

add_resource-free_example :
    (contains ("d1" ∷ []) given ≡ false)
    × ((body (CmClient.add_resource cm) (record { resource = new; log = [] })).1.log ≡ [])
add_resource-free_example = add_resource-free cm new (held ∷ []) refl given-some

remove_resource-none_example :
    (((body (CmClient.remove_resource cm) (record { resource = held; log = [] })).0 ≡ none)
      ↔ (lists held specs ≡ false))
    × (lists held specs ≡ false
        → (body (CmClient.remove_resource cm) (record { resource = held; log = [] })).1.log ≡ [])
remove_resource-none_example =
    remove_resource-none cm held "m1" specs machine1 page (texts_differ refl, tt)

cm_well : CmClient.check_resource cm held ≡ answered tt
unfolding CmClient.check_resource CmClient.check_specs Cm.find_device annotated_machine_id
    CmClient.get_machine_info asks_for_model health string_dec ℕ_discrete
cm_well = refl

check_resource-WellListed_example : WellListed held specs
check_resource-WellListed_example =
    check_resource-WellListed cm held "m1" specs machine1 page cm_well

abbrev fm_machine : Fm.Machine
fm_machine =
    record {
      resource_uuid = "d1";
      type = "gpu";
      option_status = "0";
      serial_num = "d1";
      conditions = a100;
    }
    ∷ []

abbrev fm : Fm.Env
fm = record {
  cluster_id = "cluster";
  tenant_id = "tenant";
  cluster = cluster;
  get_provider_id = λ _. Result.ok "fsas-cdi://m1";
  list_nodes = Result.ok ("node1" ∷ []);
  get_token = none;
  new_request = λ _. none;
  get_machine_page = λ _. Result.ok (record { status_code = 200; body = "" });
  change = λ _. Result.ok (record { status_code = 200; body = "" });
  read_error = λ _. none;
  read_text = λ _. none;
  read_machines = λ _. some (fm_machine ∷ []);
}

fm_machine1 : FmClient.get_node_machine_id fm "node1" ≡ Result.ok "m1"
unfolding FmClient.get_node_machine_id annotated_machine_id string_dec ℕ_discrete
fm_machine1 = refl

fm_page : FmClient.get_machine_info fm "m1" ≡ Result.ok (fm_machine ∷ [])
unfolding FmClient.get_machine_info ℕ_discrete
fm_page = refl

remove_resource-Listed_example :
    (Listed held fm_machine
      → (c : Fm.Call) × ((body (FmClient.remove_resource fm held) []).1 ≡ c ∷ [])
        × RemovesOwn fm "m1" held c)
    × (¬ (Listed held fm_machine) → body (FmClient.remove_resource fm held) [] ≡ (answered tt, []))
remove_resource-Listed_example =
    remove_resource-Listed fm held "m1" fm_machine [] fm_machine1 fm_page refl refl

well : (body (FmClient.check_resource fm held) []).0 ≡ answered tt
unfolding FmClient.check_resource FmClient.get_node_machine_id annotated_machine_id
    FmClient.get_machine_info Fm.check_machine asks_for_model health string_dec ℕ_discrete
well = refl

check_resource-Well_example : Well fm held fm_machine
check_resource-Well_example =
    check_resource-Well fm held "m1" fm_machine [] fm_machine1 fm_page well

abbrev secret : Dict String
secret = ("client_id", "c") ∷ ("realm", "r") ∷ []

abbrev decoder : Decoder
decoder = record {
  read_token =
      λ _. some (record { access_token = "h.p.s"; refresh_token = "r"; token_type = "Bearer" });
  decode = λ s. some s;
  read_expiry = λ s. if s == "p" then some 2000 else none;
}

abbrev manager : ℕ → TokenRequest.Env
manager i = record {
  endpoint = "cdi/";
  get_secret = Result.ok secret;
  post_form = λ _. Result.ok (record { status_code = 200; body = "" });
}

get_token-KeepsGenuine_example :
    KeepsGenuine decoder (get_token (λ i. (request_token decoder (manager i)).0) 100 no_token).1
    × GenuineResult decoder (get_token (λ i. (request_token decoder (manager i)).0) 100 no_token).0
get_token-KeepsGenuine_example = get_token-KeepsGenuine decoder manager 100 no_token tt

-- The new token is given out.
rotated :
    (get_token (λ i. (request_token decoder (manager i)).0) 100 no_token).0
    ≡ Result.ok (record {
      access_token = "h.p.s";
      token_type = "Bearer";
      refresh_token = "r";
      expiry = 2000;
    })
unfolding get_token request_token string_dec ℕ_discrete
rotated = refl
