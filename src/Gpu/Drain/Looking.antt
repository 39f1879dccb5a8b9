-- ===== src/Gpu/Drain/Looking.antt =====
-- What `DrainGPU` has seen of a node before it does anything to it.
use composable_resource_oper.Common.{
  String, some, List, [], ◌∷◌, ◌≡◌, inl, inr, refl, string_eq, nat_eq, All, Obeys, split,
  trim_space, trim_prefix, to_upper,
}
use composable_resource_oper.Api.{Result}
use composable_resource_oper.Cdi.{Answer, answered}
use composable_resource_oper.Gpu.Pods.{query_gpu, scan_proc, in_pod, on_host, Call, listed, ran}
use composable_resource_oper.Gpu.Info.{Info, read_proc, read_infos}
use composable_resource_oper.Gpu.Reading.{find_gpu}
use composable_resource_oper.Gpu.Drain.{fields}
use composable_resource_oper.Gpu.Drain.Policy.{Once, Lists, DrainsCarefully}

-- There are a device minor and a bus id for which the GPU was drained carefully.
abbrev pub DrainedCarefully : String → List Call → Type 0
DrainedCarefully gpu log =
    (minor : String) × (bus : String) × Obeys (DrainsCarefully gpu minor bus) log

-- Nothing was done to the node but looking.
abbrev pub Looks : Call → Type 0
Looks (listed s r) = Unit {0}
Looks (ran p (in_pod (query_gpu args)) o) = Unit {0}
Looks (ran p (on_host scan_proc) o) = Unit {0}
Looks _ = ⊥

module _ (gpu minor bus : String) where
  Looks-careful : (c : Call) (log : List Call) → Looks c → DrainsCarefully gpu minor bus c log
  Looks-careful (listed s r) log h = tt
  Looks-careful (ran p (in_pod (query_gpu args)) o) log h = tt
  Looks-careful (ran p (on_host scan_proc) o) log h = tt
  Looks-careful _ log h = absurd h

  pub All-Looks : (log : List Call) → All Looks log → Obeys (DrainsCarefully gpu minor bus) log
  All-Looks [] h = tt
  All-Looks (c ∷ log) (h, hs) = (Looks-careful c log h, All-Looks log hs)

pub Once-map :
    (P Q : Call → Type 0) → ((c : Call) → P c → Q c) → (log : List Call) → Once P log → Once Q log
Once-map P Q f [] h = elim h [ ]
Once-map P Q f (c ∷ log) (inl h) = inl (f c h)
Once-map P Q f (c ∷ log) (inr h) = inr (Once-map P Q f log h)

-- What was read in the two ways
abbrev pub Scanned : Result (List Info) → Call → Type 0
Scanned r (ran p (on_host scan_proc) o) = read_proc (split 44 fields) o ≡ r
Scanned r _ = ⊥

abbrev pub Queried : Answer (List Info) → Call → Type 0
Queried r (ran p (in_pod (query_gpu args)) o) =
    (args ≡ fields) × (read_infos (split 44 fields) o ≡ r)
Queried r _ = ⊥

module _ (gpu minor b : String) (infos : List Info)
    (found : find_gpu gpu infos ≡ some (minor, b)) where
  pub Scanned-Lists :
      (c : Call) → Scanned (Result.ok infos) c → Lists gpu minor (to_upper (trim_space b)) c
  Scanned-Lists (ran p (on_host scan_proc) o) h = (infos, b, h, found, refl)
  Scanned-Lists _ h = absurd h

  pub Queried-Lists :
      (c : Call) → Queried (answered infos) c → Lists gpu minor (trim_prefix b "0000") c
  Queried-Lists (ran p (in_pod (query_gpu args)) o) (a, h) = (a, infos, b, h, found, refl)
  Queried-Lists _ h = absurd h
