-- ===== src/Actions/Requests.antt =====
-- actions.go, `validateActionRequest`: exactly which requests are let through.
use home_stack.Prelude.{
  true, ◌≡◌, ◌≢◌, ◌↔◌, String, ◌==◌, arith, some, refl, Option, Option-cases, inl, inr, ok, All,
  All-lookup, not,
}
use home_stack.Registry.{Registry}
use home_stack.Validity.Tokens.{iff_trans, both_checks, refuses, ==-eq-false}
use home_stack.Actions.{
  ActionDescriptor, ActionRequest, action_registry, action_by_id, target_allowed,
  validate_action_request,
}

-- The action is known, its target is allowed, and it is confirmed if it has to be.
abbrev pub IsPermitted : Option Registry → ActionRequest → Type 0
IsPermitted reg req =
    (desc : ActionDescriptor) × (action_by_id req.action ≡ some desc)
    × (target_allowed reg desc req.target ≡ true)
    × (desc.requires_confirmation ≡ true → req.confirm ≡ true)

-- A request passes exactly when it is permitted.
pub validate_action_request_iff :
    (reg : Option Registry) (req : ActionRequest)
    → (validate_action_request reg req ≡ ok tt) ↔ IsPermitted reg req
unfolding validate_action_request
validate_action_request_iff reg req = elim (Option-cases (action_by_id req.action)) [
  | inl unknown ↦ rw unknown (λ h. cc, λ h. cc)
  | inr (desc, known) ↦ rw known (
      iff_trans (both_checks _ _ (refuses _ _ (ground arith)) (refuses _ _ (ground arith))) (
        λ (target, confirm). (desc, refl, target, confirm),
        λ (d, same, target, confirm). let e : desc ≡ d = cc in rw e (target, confirm),
      ))
]

-- Whether an action of the table is marked safe, and needs no confirmation.
abbrev IsMarked : String × ActionDescriptor → Type 0
IsMarked (id, desc) = (desc.risk == "safe") ≡ not desc.requires_confirmation

risks-IsMarked : All IsMarked action_registry
risks-IsMarked = (refl, (refl, (refl, (refl, (refl, (refl, (refl, (refl, (refl, (refl, tt))))))))))

-- A request that passes is confirmed, unless its action is marked safe.
pub confirmed_unless_safe :
    (reg : Option Registry) (req : ActionRequest) (desc : ActionDescriptor)
    → validate_action_request reg req ≡ ok tt
    → action_by_id req.action ≡ some desc
    → desc.risk ≢ "safe"
    → req.confirm ≡ true
unfolding action_by_id
confirmed_unless_safe reg req desc ok_req known risky =
    let (found, known', _, confirm) = (validate_action_request_iff reg req).0 ok_req in
    let same : found ≡ desc = cc in
    let marked : IsMarked (req.action, desc) =
      All-lookup IsMarked action_registry req.action desc risks-IsMarked known in
    let plain = (==-eq-false desc.risk "safe").1 risky in confirm (rw same (ground arith))
