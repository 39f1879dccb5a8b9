-- ===== src/Request/Priority.antt =====
-- Lines 309 to 359 of internal/controller/composabilityrequest_controller.go: which resources go
-- first when a request has too many.
use composable_resource_oper.Common.{
  String, ℕ, zero, suc, ◌-◌, Option, none, some, List, [], ◌∷◌, ◌++◌, ltb, if◌then◌else◌, ◌==◌,
  string_eq, nat_eq,
}
use composable_resource_oper.Common.Dict.{lookup, erase}
use composable_resource_oper.Api.{ResourceState, ComposableResource}
use composable_resource_oper.Request.Allocation.{Resources}

pub record PrioritizedResource : Type 0 where
  pub name : String
  pub sort_key : ℕ

abbrev pub annotation : String → ComposableResource → String
annotation key r = elim (lookup key r.meta.annotations) [ none ↦ "" | some v ↦ v ]

-- Lines 329 to 339. A resource in the state "None" has the state `other "None"`: the operator
-- itself writes that state as "".
abbrev attaching_level : String → ℕ
attaching_level device_id = if device_id == "" then 0 else 2

abbrev online_level : String → ℕ
online_level mark = if mark == "true" then 1 else 3

unfoldable pub level : ComposableResource → ℕ
level r = elim r.status.state [
  | ResourceState.attaching ↦ attaching_level r.status.device_id
  | ResourceState.online ↦ online_level (annotation "cohdi.io/delete-device" r)
  | ResourceState.other s ↦ if s == "None" then 0 else 4
  | _ ↦ 4
]

-- `sort.Slice` by `Before`. Of equal times it promises no order; this one keeps them as they are.
abbrev pub insert_sorted : PrioritizedResource → List PrioritizedResource → List PrioritizedResource
insert_sorted p [] = p ∷ []
insert_sorted p (q ∷ qs) = if ltb q.sort_key p.sort_key then q ∷ insert_sorted p qs else p ∷ q ∷ qs

abbrev pub sort : List PrioritizedResource → List PrioritizedResource
sort [] = []
sort (p ∷ ps) = insert_sorted p (sort ps)

-- `time.Parse` of the annotation with the time of the last use, as a parameter
module _ (parse : String → Option ℕ) where
  abbrev sort_time : ComposableResource → ℕ
  sort_time r = elim (parse (annotation "cohdi.io/last-used-time" r)) [
    | some t ↦ t
    | none ↦ r.meta.creation_timestamp
  ]

  abbrev prioritized : ComposableResource → PrioritizedResource
  prioritized r = record { name = r.meta.name; sort_key = sort_time r }

  unfoldable pub at_level : ℕ → List ComposableResource → List PrioritizedResource
  unfolding level
  at_level i [] = []
  at_level i (r ∷ rs) = if level r == i then prioritized r ∷ at_level i rs else at_level i rs

  -- The five lists, each sorted, in the order in which the last loop visits them.
  unfoldable pub by_deletion_priority : List ComposableResource → List PrioritizedResource
  unfolding at_level
  by_deletion_priority rs =
      sort (at_level 0 rs)
      ++ (sort (at_level 1 rs)
          ++ (sort (at_level 2 rs) ++ (sort (at_level 3 rs) ++ sort (at_level 4 rs))))

-- The last loop, for `n > 0`. `none` is the panic of an index past the five lists.
unfoldable pub delete_first : ℕ → List PrioritizedResource → Resources → Option Resources
delete_first n [] d = none
delete_first n (p ∷ ps) d =
    let rest = delete_first (n - 1) ps (erase p.name d) in
    if n == 1 then some (erase p.name d) else rest

-- Lines 310 to 359.
unfoldable pub delete_surplus :
    (String → Option ℕ) → ℕ → List ComposableResource → Resources → Option Resources
unfolding by_deletion_priority delete_first
delete_surplus parse zero items d = some d
delete_surplus parse (suc n) items d = delete_first (suc n) (by_deletion_priority parse items) d
