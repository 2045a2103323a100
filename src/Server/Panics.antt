-- ===== src/Server/Panics.antt =====
-- When `handleChatCompletions` of internal/server/server.go panics: it never reads the fields of a nil
-- response, but it passes the status of an upstream reply to `WriteHeader`.
use llm_gateway_platform.Prelude.{
  ℕ, ◌<◌, ◌⊎◌, ◌==◌, String, ◌≡◌, ◌∙◌, Option-cases, refl, ap, ◌≢◌, Option, none, some, arith,
  str_eq, Bool-cases, inl, inr,
}
use llm_gateway_platform.Float.{Float}
use llm_gateway_platform.Provider.{Name, ChatRequest, ChatResponse}
use llm_gateway_platform.Provider.Errors.{Err, ErrorInfo, as_provider_error}
use llm_gateway_platform.Runtime.{Env}
use llm_gateway_platform.Retry.Calls.{Interrupts}
use llm_gateway_platform.Adapter.{Exclusive, answered, failed, AllExclusive}
use llm_gateway_platform.Router.{
  Router, Result, RouteError, last_error, ChatError, bare, route_error, Outcome, ok, err,
  clone_for_target,
}
use llm_gateway_platform.Router.Chat.{chat}
use llm_gateway_platform.Router.Turn.{Serves}
use llm_gateway_platform.Router.Failover.{ChatEnds, served, chat_served}
use llm_gateway_platform.Pricing.{Table}
use llm_gateway_platform.Server.{
  ChatCompletionRequest, Body, panic, write_json, status_or, chat_error_deadline_exceeded,
  chat_error_canceled, write_other_error, write_chat_error, after_chat, unified, is_empty,
  handle_chat_completions,
}

-- An exclusive provider never returns nil and nil.
not_silent :
    {name : Name} (resp : Option ChatResponse) (e : Option Err)
    → Exclusive name resp e
    → e ≡ none
    → resp ≢ none
not_silent (some r) none (answered _) h k = cc
not_silent none (some x) failed h k = cc
not_silent none none x h k = elim x [ ]
not_silent (some r) (some e) x h k = elim x [ ]

-- `Chat` has failed on its targets, and the last failure carries a status that `WriteHeader` refuses.
pub record Unwritable (o : Outcome) : Type 0 where
  pub failed : RouteError
  pub last : Err
  pub info : ErrorInfo
  pub ended : o ≡ err (route_error failed)
  pub is_last : last_error failed ≡ some last
  pub carries : as_provider_error last ≡ some info
  pub some_status : info.status ≢ 0
  pub refused : (info.status < 100) ⊎ (999 < info.status)

status_of_panic :
    {F : Type 0} (status : ℕ) (body : Body F)
    → write_json status body ≡ panic
    → (status < 100) ⊎ (999 < status)
status_of_panic status body h = ground arith

refused_or :
    (o : Option ErrorInfo)
    → (status_or o 502 < 100) ⊎ (999 < status_or o 502)
    → (i : ErrorInfo) × (o ≡ some i) × (i.status ≢ 0) × ((i.status < 100) ⊎ (999 < i.status))
refused_or none h = ground arith
refused_or (some i) h = elim (Bool-cases (i.status == 0)) [
  | inl no_status ↦ let bad = rw no_status at h in ground arith
  | inr status ↦ (i, refl, (λ e. ground arith), rw status at h)
]

other_error_panics :
    {F : Type 0} (all : RouteError)
    → write_other_error {F = F} (route_error all) ≡ panic
    → Unwritable (err (route_error all))
unfolding write_other_error
other_error_panics all h = elim (Option-cases (last_error all)) [
  | inl missing ↦ let bad = rw missing at h in ground arith
  | inr (last, is_last) ↦
      let (i, carries, some_status, refused) =
        refused_or (as_provider_error last) (status_of_panic _ _ (rw is_last at h)) in
      record {
        failed = all;
        last = last;
        info = i;
        ended = refl;
        is_last = is_last;
        carries = carries;
        some_status = some_status;
        refused = refused;
      }
]

error_panics :
    {F : Type 0} (e : ChatError) → write_chat_error {F = F} e ≡ panic → Unwritable (err e)
unfolding write_chat_error write_other_error
error_panics (bare e) h = ground arith
error_panics (route_error all) h =
    elim (Bool-cases (chat_error_deadline_exceeded (route_error all))) [
      | inl late ↦ let bad = rw late at h in cc
      | inr early ↦ elim (Bool-cases (chat_error_canceled (route_error all))) [
        | inl gone ↦ let bad = rw (early, gone) at h in cc
        | inr live ↦ other_error_panics all (rw (early, live) at h)
      ]
    ]

module _ {F W : Type 0} (f : Float F) (env : Env W) (router : Router F W)
    (pricer : Option (Table F)) where
  Serves-response :
      (req : ChatRequest F) (result : Result)
      → AllExclusive router
      → Serves env router req result
      → result.response ≢ none
  Serves-response req result exclusive s k =
      not_silent _ _
        ((exclusive result.target.provider s.provider s.registered).0.at
          (clone_for_target req result.target) s.before)
        (ap (λ x. x.1) s.replied) (ap (λ x. x.0) s.replied ∙ k)

  always : Interrupts env (λ _. Unit)
  always = record { at_ctx = λ _ _ _. tt; at_wait = λ _ _ _ _. tt }

  Ends-response :
      (req : ChatRequest F) (targets : _) (result : Result)
      → AllExclusive router
      → ChatEnds env router req (λ _. Unit) targets (ok result)
      → result.response ≢ none
  Ends-response req targets result exclusive (served _ _ _ _ _ s) =
      Serves-response req result exclusive s

  after_chat_panics :
      (req : ChatRequest F) (w : W) (o : Outcome)
      → AllExclusive router
      → (chat env router req w).0 ≡ o
      → after_chat f env router pricer o ≡ panic
      → Unwritable o
  unfolding after_chat
  after_chat_panics req w (err e) exclusive h bad = error_panics e bad
  after_chat_panics req w (ok result) exclusive h bad =
      let (route, found, ends) = chat_served env router req (λ _. Unit) w result always h in
      let here = Ends-response req route.targets result exclusive ends in
      elim (Option-cases result.response) [
        | inl missing ↦ absurd (here missing)
        | inr (response, found) ↦ let wrong = rw found at bad in cc
      ]

  -- `Chat` fails on the request with such a status.
  abbrev pub SendsUnwritable : Option (ChatCompletionRequest F) → String → W → Type 0
  SendsUnwritable req caller w =
      (sent : ChatCompletionRequest F) × (req ≡ some sent)
      × Unwritable (chat env router (unified f env router pricer sent caller) w).0

  -- If every registered provider returns a response or an error and never both or none, then the
  -- handler panics only where the last failure of `Chat` carries a status that is not 0 and has not three
  -- digits.
  pub handler_panics :
      (req : Option (ChatCompletionRequest F)) (caller : String) (w : W)
      → AllExclusive router
      → (handle_chat_completions f env router pricer req caller w).0 ≡ panic
      → SendsUnwritable req caller w
  unfolding handle_chat_completions
  handler_panics none caller w exclusive h = cc
  handler_panics (some req) caller w exclusive h = elim (Bool-cases (str_eq req.model "")) [
    | inl empty ↦ let bad = rw empty at h in cc
    | inr model ↦ elim (Bool-cases (is_empty req.messages)) [
      | inl empty ↦ let bad = rw (model, empty) at h in cc
      | inr messages ↦ (
        req,
        refl,
        after_chat_panics (unified f env router pricer req caller) w _ exclusive refl
            (rw (model, messages) at h),
      )
    ]
  ]
