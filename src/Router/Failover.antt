-- ===== src/Router/Failover.antt =====
-- What `Chat` of internal/router/router.go promises: targets are tried in order, each failure is
-- recorded, and the loop goes on only after a failure that allows it.
use mathlib.Core.List.{append-nil, append_assoc, map-append}
use llm_gateway_platform.Prelude.{
  ◌≡◌, refl, sym, ◌∙◌, ap, ◌⊎◌, inl, inr, Option, none, some, List, [], ◌∷◌, ◌++◌, map, All,
  All-append,
}
use llm_gateway_platform.Provider.{ChatRequest}
use llm_gateway_platform.Provider.Errors.{Err}
use llm_gateway_platform.Runtime.{Env}
use llm_gateway_platform.Retry.Calls.{Interrupts}
use llm_gateway_platform.Router.{
  Target, Route, Router, Result, TargetFailure, Outcome, ok, err, bare, route_error, record_failure,
  resolve,
}
use llm_gateway_platform.Router.Chat.{
  Step, finish, next, visit, chain, after_resolve, no_route, chat,
}
use llm_gateway_platform.Router.Turn.{
  MovedOn, Terminal, Serves, Visited, served_by, cut, ended, moved, visit-Visited,
}

abbrev pub targets_of : List TargetFailure → List Target
targets_of = map (λ f. f.target)

module _ {F W : Type 0} (env : Env W) (r : Router F W) (req : ChatRequest F)
    (C : Err → Type 0) where
  -- How `Chat` may end on a route with these targets.
  pub data ChatEnds (targets : List Target) : Outcome → Type 0 where
    -- A target served the request, and the loop moved on from all targets before it.
    served :
        (result : Result) (failures : List TargetFailure) (later : List Target)
        → targets_of failures ++ result.target ∷ later ≡ targets
        → All (MovedOn env r req C) failures
        → Serves env r req result
        → ChatEnds targets (ok result)
    -- The context was done before a target was tried.
    interrupted : (e : Err) → C e → ChatEnds targets (err (bare e))
    -- A target failed for good, and the loop moved on from all targets before it.
    stopped :
        (failures : List TargetFailure) (target : Target) (e : Err) (later : List Target)
        → targets_of failures ++ target ∷ later ≡ targets
        → All (MovedOn env r req C) failures
        → Terminal env r req C (record { target = target; error = e })
        → ChatEnds targets (
            err (
              route_error (record {
                logical_model = req.model;
                failures = record_failure target e failures;
              })))
    -- The loop moved on from every target.
    exhausted :
        (failures : List TargetFailure)
        → targets_of failures ≡ targets
        → All (MovedOn env r req C) failures
        → ChatEnds targets
            (err (route_error (record { logical_model = req.model; failures = failures })))

  targets_of-record :
      (target : Target) (e : Err) (failures : List TargetFailure) (later : List Target)
      → targets_of (record_failure target e failures) ++ later
        ≡ targets_of failures ++ target ∷ later
  targets_of-record target e failures later = simp (map-append, append_assoc)

  module _ (cuts : Interrupts env C) (all : List Target) where
    -- The loop's choice after a turn, with `rest` for the rest of the loop.
    choice-ends :
        (target : Target) (later : List Target) (failures : List TargetFailure)
        (rest : List TargetFailure → W → Outcome × W) (x : Step W)
        → targets_of failures ++ target ∷ later ≡ all
        → All (MovedOn env r req C) failures
        → Visited env r req C target failures x
        → ((failures' : List TargetFailure) (w : W)
            → targets_of failures' ++ later ≡ all
            → All (MovedOn env r req C) failures'
            → ChatEnds all (rest failures' w).0)
        → ChatEnds all
            (elim x as (λ _. Outcome × W) [ finish o w ↦ (o, w) | next fs w ↦ rest fs w ]).0
    choice-ends target later failures rest x here passed (served_by result w same serves) ih =
        served result failures later (rw same here) passed serves
    choice-ends target later failures rest x here passed (cut e w kind) ih = interrupted e kind
    choice-ends target later failures rest x here passed (ended e w terminal) ih =
        stopped failures target e later here passed terminal
    choice-ends target later failures rest x here passed (moved e w on) ih =
        ih (record_failure target e failures) w (targets_of-record target e failures later ∙ here)
          (All-append (MovedOn env r req C) failures _ passed (on, tt))

    chain-ends :
        (later : List Target) (failures : List TargetFailure) (w : W)
        → targets_of failures ++ later ≡ all
        → All (MovedOn env r req C) failures
        → ChatEnds all (chain env r req later failures w).0
    unfolding chain
    chain-ends [] failures w here passed = exhausted failures (sym (append-nil _) ∙ here) passed
    chain-ends (target ∷ later) failures w here passed =
        choice-ends target later failures (chain env r req later)
          (visit env r req target failures w) here passed
          (visit-Visited env r req C target failures cuts w) (λ fs w'. chain-ends later fs w')

  -- On a route that `resolve` found and that has targets, `Chat` ends in one of four ways. A target
  -- served the request, after as many calls as the result says (1 to `MaxAttempts`). Or the context
  -- was done before a target was tried. Or a target failed for good. Or the loop moved on from every
  -- target. The targets before the last one tried are those of the route, in order, each recorded
  -- with the failure after which the loop moved on from it. The error of a failed call is one that the
  -- target's provider returned, or the context's.
  pub chat_ends :
      (route : Route) (target : Target) (later : List Target) (w : W)
      → Interrupts env C
      → resolve r req.model ≡ some route
      → route.targets ≡ target ∷ later
      → ChatEnds route.targets (chat env r req w).0
  unfolding chat after_resolve
  chat_ends route target later w cuts found some_target =
      rw (found, after_resolve, some_target)
        (chain-ends cuts (target ∷ later) (target ∷ later) [] w refl tt)

  -- The model has a route with targets, or none that could serve a request.
  pub data Routed : Type 0 where
    unrouted :
        ((resolve r req.model ≡ none)
          ⊎ ((route : Route) × (resolve r req.model ≡ some route) × (route.targets ≡ [])))
        → Routed
    routed :
        (route : Route) (target : Target) (later : List Target)
        → resolve r req.model ≡ some route
        → route.targets ≡ target ∷ later
        → Routed

  route-Routed :
      (route : Route) (targets : List Target)
      → resolve r req.model ≡ some route
      → route.targets ≡ targets
      → Routed
  route-Routed route [] found empty = unrouted (inr (route, found, empty))
  route-Routed route (target ∷ later) found some_target =
      routed route target later found some_target

  Routed-cases : (o : Option Route) → resolve r req.model ≡ o → Routed
  Routed-cases none missing = unrouted (inl missing)
  Routed-cases (some route) found = route-Routed route route.targets found refl

  -- A request for a model with no route, or with a route without targets, gets an error of its own and
  -- leaves the world as it is: no provider is called, no token taken, and the context is not read.
  pub chat_no_route :
      (w : W)
      → (resolve r req.model ≡ none)
        ⊎ ((route : Route) × (resolve r req.model ≡ some route) × (route.targets ≡ []))
      → chat env r req w ≡ (err (bare (no_route env r req)), w)
  unfolding chat after_resolve
  chat_no_route w (inl missing) = rw missing
  chat_no_route w (inr (route, found, empty)) = rw found (rw empty)

  -- A request that `Chat` has served was served by a target of the route to which its model resolves.
  pub chat_served :
      (w : W) (result : Result)
      → Interrupts env C
      → (chat env r req w).0 ≡ ok result
      → (route : Route) × (resolve r req.model ≡ some route) × ChatEnds route.targets (ok result)
  chat_served w result cuts h = elim (Routed-cases (resolve r req.model) refl) [
    | unrouted missing ↦
        let bad : err (bare (no_route env r req)) ≡ ok result =
          sym (ap (λ x. x.0) (chat_no_route w missing)) ∙ h in
        cc
    | routed route target later found some_target ↦
        (route, found, rw h at (chat_ends route target later w cuts found some_target))
  ]
