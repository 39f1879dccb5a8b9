-- ===== src/Gpu/Taints.antt =====
-- Which device a taint rule is for.
use composable_resource_oper.Common.{
  String, true, Option, none, some, Option-cases, List, [], ◌∷◌, ◌≡◌, ◌⊎◌, inl, inr, arith,
  string_eq, body, subst, refl,
}
use composable_resource_oper.Api.{Error, Result, ComposableResource}
use composable_resource_oper.Gpu.{
  SliceDevice, ResourceSlice, DeviceTaintRule, created, TaintEnv, taint_name, has_uuid, Place,
  find_in_slice, find_place, create_at, create_device_taint,
}

-- The rule selects a device of the slices that carries the UUID.
abbrev SelectsIn : String → DeviceTaintRule → List SliceDevice → Type 0
SelectsIn uuid rule [] = ⊥
SelectsIn uuid rule (d ∷ ds) =
    ((has_uuid uuid d.attributes ≡ true) × (rule.device ≡ d.name)) ⊎ SelectsIn uuid rule ds

abbrev pub Selects : String → DeviceTaintRule → List ResourceSlice → Type 0
Selects uuid rule [] = ⊥
Selects uuid rule (s ∷ ss) =
    ((rule.driver ≡ s.driver) × (rule.pool ≡ s.pool) × SelectsIn uuid rule s.devices)
    ⊎ Selects uuid rule ss

abbrev rule_at : String → String → Place → DeviceTaintRule
rule_at name uuid (driver, pool, device) = record {
  name = name;
  driver = driver;
  pool = pool;
  device = device;
  value = uuid;
}

find_in_slice-SelectsIn :
    (uuid name : String) (s : ResourceSlice) (ds : List SliceDevice) (p : Place)
    → find_in_slice uuid s ds ≡ some p
    → (p.0 ≡ s.driver) × (p.1 ≡ s.pool) × SelectsIn uuid (rule_at name uuid p) ds
unfolding find_in_slice
find_in_slice-SelectsIn uuid name s [] p h = absurd (ground arith)
find_in_slice-SelectsIn uuid name s (d ∷ ds) p h =
    ground (arith, find_in_slice-SelectsIn uuid name s ds p)

find_place-Selects :
    (uuid name : String) (ss : List ResourceSlice) (p : Place)
    → find_place uuid ss ≡ some p
    → Selects uuid (rule_at name uuid p) ss
unfolding find_place
find_place-Selects uuid name [] p h = absurd (ground arith)
find_place-Selects uuid name (s ∷ ss) p h = elim (Option-cases (find_in_slice uuid s s.devices)) [
  | inl n ↦ inr (find_place-Selects uuid name ss p (ground (h, n, arith)))
  | inr (q, n) ↦ inl (find_in_slice-SelectsIn uuid name s s.devices p (ground (h, n, arith)))
]

module _ (env : TaintEnv) where
  create_at-Selects :
      (r : ComposableResource) (slices : List ResourceSlice) (o : Option Place)
      (rule : DeviceTaintRule) (e : Option Error)
      → find_place r.status.device_id slices ≡ o
      → (body (create_at env r o) []).1 ≡ created rule e ∷ []
      → (rule.name ≡ taint_name r)
        × (rule.value ≡ r.status.device_id)
        × Selects r.status.device_id rule slices
  create_at-Selects r slices none rule e f h = absurd (ground (h, arith))
  create_at-Selects r slices (some p) rule e f h =
      let same : rule_at (taint_name r) r.status.device_id p ≡ rule = ground (h, arith) in
      (
        ground (same, arith),
        ground (same, arith),
        subst (λ x. Selects r.status.device_id x slices) same
            (find_place-Selects r.status.device_id (taint_name r) slices p f),
      )

  -- A rule that is created is named after the resource, and selects a device of the slices that
  -- carries the UUID of the resource's device.
  pub create_device_taint-Selects :
      (r : ComposableResource) (slices : List ResourceSlice) (rule : DeviceTaintRule)
      (e : Option Error)
      → env.list_slices ≡ Result.ok slices
      → (body (create_device_taint env r) []).1 ≡ created rule e ∷ []
      → (rule.name ≡ taint_name r)
        × (rule.value ≡ r.status.device_id)
        × Selects r.status.device_id rule slices
  unfolding create_device_taint
  create_device_taint-Selects r slices rule e l h =
      create_at-Selects r slices (find_place r.status.device_id slices) rule e refl
        (ground (h, l, arith))
