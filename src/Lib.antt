-- ===== src/Lib.antt =====
-- The composable resource operator attaches devices of a composable disaggregated infrastructure
-- to the nodes of a Kubernetes cluster. A ComposabilityRequest asks for a number of devices; its
-- controller chooses nodes and creates one ComposableResource for each device; the controller of
-- these asks a CDI provider to attach and to remove the device, and prepares the node. A webhook
-- admits requests, and a syncer has devices detached that no resource holds.
--
-- Api is api/v1alpha1, and the errors that the client and the providers give back. Nodes is
-- internal/utils/nodes.go. Resource is internal/controller/composableresource_controller.go:
-- Resource.Effects has the world (the object that is held, and the log of calls) and the
-- environment, Resource.Handlers and Resource.Detaching the five state handlers block by block,
-- Resource.Adapter the choice of the provider in composableresource_adapter.go, Resource.Reconcile
-- the garbage collection and Reconcile. Resource.Policy says which calls are right;
-- Resource.Devices, Resource.Writes, Resource.Errors and Resource.Progress prove it. Request is
-- internal/controller/composabilityrequest_controller.go: Request.Allocation, Request.Priority and
-- Request.Placement are the three parts of handleNodeAllocatingState, Request.Handlers the state
-- handlers, Request.Reconcile the rest. Syncer is
-- internal/controller/upstreamsyncer_controller.go: a synchronisation in Syncer itself, the
-- goroutine in Syncer.Ticks, and its runs in Syncer.Runs; Webhook is
-- internal/webhook/v1alpha1/composabilityrequest_webhook.go, Cdi.Cm, Cdi.Fm and Cdi.Token are the
-- clients in internal/cdi/fti: their data and searches, with the operations in the child Client,
-- and in Cdi.Fm.Bodies the bodies of the fabric manager's requests; Cdi.Sunfish is
-- internal/cdi/sunfish/client.go. Cdi.Token.Request is the request for a token. Gpu is
-- internal/utils/gpus.go: the load check and the taints in Gpu itself, Gpu.Pods the pods and the
-- commands that run in them, Gpu.Info what nvidia-smi and /proc tell, Gpu.Reading the reading of
-- other outputs, Gpu.Drain the drain from the agent and Gpu.Drain.Driver the drain in the
-- container of the driver; Gpu.Drain.Policy says which commands are right, and Gpu.Drain.Order,
-- Gpu.Drain.Driven and Gpu.Drain.Safety prove it. Main is cmd/main.go from the parsed command line
-- on, with Main.Starting. Tests has each theorem at a concrete input.
--
-- A Go function is an action on its world that goes on with a value or has returned (Common.Flow).
-- Whatever is outside the operator is an environment of functions, or of values where a call is
-- made once. In Resource an answer may depend on all calls made before it, which covers what other
-- actors do in between. A reconciliation of a request reads one snapshot, and only the answers to
-- its writes depend on the writes before. After a successful update the held object is what was
-- sent. Of the finalizers the model keeps whether the operator's own is there. A Go map is an
-- association list whose order stands for the order of the walk, so that a theorem over all lists
-- covers all orders. Sizes are natural numbers, as the minimum of the custom resource definition
-- has it; times are natural numbers, and the time since a moment to come is zero. sort.Slice is a
-- stable insertion sort; of equal keys Go promises no order. Random names, time.Parse, JSON and
-- HTTP answers are parameters. The texts of errors that wrap others are shortened. The count of
-- devices in the cluster manager is an integer without overflow. All loops are recursion on lists;
-- there is no fuel.
--
-- The shell scripts and programs that run in pods are commands whose outputs are arbitrary. The
-- reset of the last GPU runs beside its caller: what it has given back by the time of the test is
-- arbitrary too. The controller sees all of internal/utils/gpus.go as calls with answers;
-- Resource.Draining puts DrainGPU itself in the place of its call, where a panic counts as a
-- failure, and Resource.Provider puts AddResource of the cluster manager in the place of its call.
--
-- Not modelled: deep copies, logging, the parsing of the command line, and the registration of the
-- controllers and of the webhook with the manager's runtime.
mod Common
pub mod Main
pub mod Api
pub mod Nodes
pub mod Resource
pub mod Request
pub mod Cdi
pub mod Gpu
pub mod Syncer
pub mod Webhook
pub mod Tests
