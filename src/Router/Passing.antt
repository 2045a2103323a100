-- ===== src/Router/Passing.antt =====
-- The targets that `Chat` of internal/router/router.go passes over, in the words of the offers.
use llm_gateway_platform.Prelude.{
  ◌≡◌, refl, ◌∙◌, ap, Bool, Option, none, some, List, [], ◌∷◌, ◌++◌, Bool-cases, inl, inr,
  if◌then◌else◌, String,
}
use llm_gateway_platform.Provider.{ChatRequest, ChatResponse}
use llm_gateway_platform.Provider.Errors.{Err}
use llm_gateway_platform.Runtime.{Env}
use llm_gateway_platform.Retry.Calls.{Interrupts}
use llm_gateway_platform.Router.{
  Target, Route, Router, TargetFailure, Outcome, ok, record_failure, resolve,
}
use llm_gateway_platform.Router.Chat.{chain, after_resolve, chat}
use llm_gateway_platform.Router.Offers.{
  Offer, missing, limited, serves, fails, missing_error, limited_error, passes_on, first_served,
  AllSteady, Steady, targets_of,
}
use llm_gateway_platform.Router.Refinement.{visit-Done, continue}

-- The error that is recorded for a target after which the next one is tried.
abbrev pub passed : (Err → Bool) → Target → Offer → Option Err
passed failover t missing = some (missing_error t)
passed failover t limited = some (limited_error t)
passed failover t (serves response) = none
passed failover t (fails e) = if passes_on failover e then some e else none

-- After every one of the targets the next one is tried.
abbrev pub AllPassed : (Err → Bool) → List (Target × Offer) → Type 0
AllPassed failover [] = Unit
AllPassed failover ((t, o) ∷ rest) =
    ((e : Err) × (passed failover t o ≡ some e)) × AllPassed failover rest

abbrev record_passed : Target → Option Err → List TargetFailure → List TargetFailure
record_passed t none failures = failures
record_passed t (some e) failures = record_failure t e failures

-- The failures that the targets leave.
abbrev pub record_all :
    (Err → Bool) → List (Target × Offer) → List TargetFailure → List TargetFailure
record_all failover [] failures = failures
record_all failover ((t, o) ∷ rest) failures =
    record_all failover rest (record_passed t (passed failover t o) failures)

module _ (failover : Err → Bool) (model : String) where
  pub first_served-AllPassed :
      (before rest : List (Target × Offer)) (failures : List TargetFailure)
      → AllPassed failover before
      → first_served failover model (before ++ rest) failures
        ≡ first_served failover model rest (record_all failover before failures)
  unfolding first_served
  first_served-AllPassed [] rest failures all = refl
  first_served-AllPassed ((t, missing) ∷ before) rest failures (one, all) =
      first_served-AllPassed before rest _ all
  first_served-AllPassed ((t, limited) ∷ before) rest failures (one, all) =
      first_served-AllPassed before rest _ all
  first_served-AllPassed ((t, serves response) ∷ before) rest failures ((e, bad), all) = cc
  first_served-AllPassed ((t, fails e) ∷ before) rest failures ((e', one), all) =
      elim (Bool-cases (passes_on failover e)) [
        | inl on ↦ rw on (first_served-AllPassed before rest _ all)
        | inr off ↦ let bad : none ≡ some e' = rw off at one in cc
      ]

module _ {F W : Type 0} (env : Env W) (r : Router F W) (req : ChatRequest F)
    (live : Interrupts env (λ _. ⊥)) where
  -- The result of a request that the target answers at the first call.
  abbrev pub answered_by : Target → Option ChatResponse → Outcome
  answered_by t response = ok (record { response = response; target = t; attempts = 1 })

  chain_reaches :
      (before : List (Target × Offer)) (t : Target) (later : List Target)
      (response : Option ChatResponse) (failures : List TargetFailure) (w : W)
      → AllSteady r req before
      → AllPassed r.failover before
      → Steady r req t (serves response)
      → (chain env r req (targets_of before ++ t ∷ later) failures w).0 ≡ answered_by t response
  unfolding chain
  chain_reaches [] t later response failures w steady all serving =
      let (w', turn) = visit-Done env r req live t failures (serves response) w serving in
      ap (λ x. (continue env r req live later x).0) turn
  chain_reaches ((t₀, missing) ∷ before) t later response failures w (here, steady) (one, all)
        serving =
      let (w', turn) = visit-Done env r req live t₀ failures missing w here in
      ap (λ x. (continue env r req live (targets_of before ++ t ∷ later) x).0) turn
      ∙ chain_reaches before t later response _ w' steady all serving
  chain_reaches ((t₀, limited) ∷ before) t later response failures w (here, steady) (one, all)
        serving =
      let (w', turn) = visit-Done env r req live t₀ failures limited w here in
      ap (λ x. (continue env r req live (targets_of before ++ t ∷ later) x).0) turn
      ∙ chain_reaches before t later response _ w' steady all serving
  chain_reaches ((t₀, serves answer) ∷ before) t later response failures w (here, steady)
        ((e, bad), all) serving =
      cc
  chain_reaches ((t₀, fails e) ∷ before) t later response failures w (here, steady) ((e', one), all)
        serving =
      let (w', turn) = visit-Done env r req live t₀ failures (fails e) w here in
      elim (Bool-cases (passes_on r.failover e)) [
        | inl on ↦
            ap (λ x. (continue env r req live (targets_of before ++ t ∷ later) x).0) (rw on at turn)
            ∙ chain_reaches before t later response _ w' steady all serving
        | inr off ↦ let bad : none ≡ some e' = rw off at one in cc
      ]

  after_resolve_reaches :
      (targets : List Target) (before : List (Target × Offer)) (t : Target) (later : List Target)
      (response : Option ChatResponse) (w : W)
      → targets ≡ targets_of before ++ t ∷ later
      → AllSteady r req before
      → AllPassed r.failover before
      → Steady r req t (serves response)
      → (after_resolve env r req (some (record { targets = targets })) w).0 ≡ answered_by t response
  unfolding after_resolve
  after_resolve_reaches targets [] t later response w split steady all serving =
      rw (split, after_resolve) (chain_reaches [] t later response [] w steady all serving)
  after_resolve_reaches targets (o ∷ before) t later response w split steady all serving =
      rw (split, after_resolve)
        (chain_reaches (o ∷ before) t later response [] w steady all serving)

  -- While the context is never done: if the targets of the model's route up to some target have offers
  -- that do not change, that target's being a response, and after each of the targets before it the
  -- next one is tried, then `Chat` returns that response, with that target and one attempt, whatever
  -- the later targets do.
  pub chat_reaches :
      (route : Route) (before : List (Target × Offer)) (t : Target) (later : List Target)
      (response : Option ChatResponse) (w : W)
      → resolve r req.model ≡ some route
      → route.targets ≡ targets_of before ++ t ∷ later
      → AllSteady r req before
      → AllPassed r.failover before
      → Steady r req t (serves response)
      → (chat env r req w).0 ≡ answered_by t response
  unfolding chat
  chat_reaches route before t later response w found split steady all serving =
      rw found
        (after_resolve_reaches route.targets before t later response w split steady all serving)
