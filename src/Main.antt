-- ===== src/Main.antt =====
-- cmd/main.go: how the operator starts.
pub mod Starting
use composable_resource_oper.Common.{
  String, ℕ, Bool, true, false, not, Option, none, some, List, [], ◌∷◌, ◌!=◌, string_eq,
  if◌then◌else◌, Action, next, return, pure, skip, ◌>>=◌, ◌>>◌,
}
use composable_resource_oper.Api.{Error}

-- The command line, after its parsing
pub record Flags : Type 0 where
  pub metrics_bind_address : String
  pub health_probe_bind_address : String
  pub leader_elect : Bool
  pub metrics_secure : Bool
  pub enable_http2 : Bool

-- What the manager is made with: `next_protos` is what the TLS options of the webhook server and of
-- the metrics server allow, none for the default.
pub record Options : Type 0 where
  pub webhook_next_protos : Option (List String)
  pub metrics_next_protos : Option (List String)
  pub bind_address : String
  pub secure_serving : Bool
  -- whether the filter for authentication and authorization is there
  pub filtered : Bool
  pub health_probe_bind_address : String
  pub leader_election : Bool
  pub leader_election_id : String

pub data Part : Type 0 where
  composability_request : Part
  composable_resource : Part
  upstream_syncer : Part
  webhook : Part

pub data Step : Type 0 where
  get_config : Step
  new_manager : Options → Step
  new_clientset : Step
  set_up : Part → Step
  add_healthz : Step
  add_readyz : Step
  start : Step

-- What each step answers, by the steps before it, the newest first
pub record Env : Type 0 where
  pub answer : List Step → Step → Option Error
  pub getenv : String → String

-- How the process ends: `os.Exit`, or the end of `main`
pub data Exit : Type 0 where
  exited : ℕ → Exit
  ended : Exit

-- `tlsOpts`
abbrev pub next_protos : Bool → Option (List String)
next_protos true = none
next_protos false = some ("http/1.1" ∷ [])

unfoldable pub options_of : Flags → Options
options_of f = record {
  webhook_next_protos = next_protos f.enable_http2;
  metrics_next_protos = next_protos f.enable_http2;
  bind_address = f.metrics_bind_address;
  secure_serving = f.metrics_secure;
  filtered = f.metrics_secure;
  health_probe_bind_address = f.health_probe_bind_address;
  leader_election = f.leader_elect;
  leader_election_id = "c5744f42.hpsys.ibm.ie.com";
}

module _ (env : Env) where
  abbrev ended_by : Option Error → Action (List Step) Exit (Unit {0})
  ended_by none = skip
  ended_by (some e) = return (exited 1)

  -- A step whose error ends the process
  abbrev pub perform : Step → Action (List Step) Exit (Unit {0})
  perform s = (λ log. (next (env.answer log s), s ∷ log)) >>= λ e. ended_by e

  -- The registrations
  unfoldable pub register : Action (List Step) Exit (Unit {0})
  register = do
    perform (set_up composability_request)
    perform (set_up composable_resource)
    perform (set_up upstream_syncer)
    if env.getenv "ENABLE_WEBHOOKS" != "false" then perform (set_up webhook) else skip

  unfoldable pub main : Flags → Action (List Step) Exit Exit
  unfolding options_of register
  main flags = do
    perform get_config
    perform (new_manager (options_of flags))
    perform new_clientset
    register
    perform add_healthz
    perform add_readyz
    perform start
    pure ended
