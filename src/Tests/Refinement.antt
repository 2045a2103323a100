-- ===== src/Tests/Refinement.antt =====
-- Requests against offers that do not change, and registries filled in two orders.
use mathlib.Core.Path.{subst}
use mathlib.Core.Option.{some-injective}
use llm_gateway_platform.Provider.{ChatRequest}
use llm_gateway_platform.Router.{
  Provider, Target, Router, Limiter, ok, new, set_limiter, resolve, lookup_provider, lookup_limiter,
}
use llm_gateway_platform.Router.Load.{Meters, chat_calls}
use llm_gateway_platform.Retry.{attempts_of}
use llm_gateway_platform.Prelude.{
  suc, ◌+◌, ◌*◌, ◌≤◌, length, str_eq, Bool-cases, inl, inr, ℕ, ◌≡◌, refl, false, none, some, List,
  [], ◌∷◌,
}
use llm_gateway_platform.Prelude.Int.{ℤ}
use llm_gateway_platform.Prelude.Dict.{insert}
use llm_gateway_platform.Provider.Errors.{as_provider_error, new_http_error}
use llm_gateway_platform.Router.Chat.{chat}
use llm_gateway_platform.Router.Offers.{
  Offer, limited_error, limited, serves, fails, first_served, answers, breaks, AllSteady,
}
use llm_gateway_platform.Router.Refinement.{chat-first_served}
use llm_gateway_platform.Router.Passing.{chat_reaches}
use llm_gateway_platform.Router.Registry.{
  Command, put_provider, put_limiter, put_route, commands, execute_all, empty, route_for,
  execute_all-commands,
}
use llm_gateway_platform.Server.{status_or}
use llm_gateway_platform.Tests.Retry.{quiet, quiet-Interrupts}
use llm_gateway_platform.Tests.Router.{
  routing, question, answer, working, overloaded, claude, gpt, both, router_with,
}

abbrev offers : List (Target × Offer)
offers = (claude, fails overloaded) ∷ (gpt, serves (some (answer "gpt-4o"))) ∷ []

offers-AllSteady : AllSteady (router_with overloaded) (question "chat-default") offers
unfolding routing router_with
offers-AllSteady = (
  breaks _ overloaded refl (λ l set. cc) (λ w. refl),
  (answers _ (some (answer "gpt-4o")) refl (λ l set. cc) (λ w. (refl, refl)), tt),
)

chat-first_served_example :
    (chat quiet (router_with overloaded) (question "chat-default") 0).0
    ≡ first_served (router_with overloaded).failover "chat-default" offers []
unfolding routing router_with
chat-first_served_example =
    chat-first_served quiet (router_with overloaded) (question "chat-default") quiet-Interrupts both
      claude (fails overloaded) ((gpt, serves (some (answer "gpt-4o"))) ∷ []) 0 refl refl
      offers-AllSteady

chat_reaches_example :
    (chat quiet (router_with overloaded) (question "chat-default") 0).0
    ≡ ok (record { response = some (answer "gpt-4o"); target = gpt; attempts = 1 })
unfolding routing router_with
chat_reaches_example =
    chat_reaches quiet (router_with overloaded) (question "chat-default") quiet-Interrupts both
      ((claude, fails overloaded) ∷ []) gpt [] (some (answer "gpt-4o")) 0 refl refl
      (offers-AllSteady.0, tt) ((overloaded, refl), tt) offers-AllSteady.1.0

-- Both targets behind limiters that refuse.
abbrev closed : Limiter ℕ
closed = record { allow = λ w. (false, w) }

unfoldable full_router : Router ℤ ℕ
unfolding set_limiter insert
full_router =
    set_limiter "openai" (some closed)
      (set_limiter "anthropic" (some closed) (router_with overloaded))

abbrev refused : List (Target × Offer)
refused = (claude, limited) ∷ (gpt, limited) ∷ []

-- That status is 429.
too_many : status_or (as_provider_error (limited_error gpt)) 502 ≡ 429
unfolding as_provider_error new_http_error
too_many = refl

abbrev filled : List (Command ℤ ℕ)
filled =
    put_provider working ∷ put_route "chat-default" both ∷ put_limiter "openai" (some closed) ∷ []

execute_all-commands_example :
    (lookup_provider (execute_all filled new) "openai"
      ≡ (commands filled empty).provider_of "openai")
    × (lookup_limiter (execute_all filled new) "openai"
        ≡ (commands filled empty).limiter_of "openai")
    × (resolve (execute_all filled new) "chat-default"
        ≡ route_for (commands filled empty) "chat-default")
execute_all-commands_example = execute_all-commands filled "openai" "chat-default"

-- The world counts the calls itself.
counts_one :
    {q p : Provider ℤ ℕ} {sub : ChatRequest ℤ} {w : ℕ}
    → some q ≡ some p
    → (q.chat sub w).2 ≡ suc w
    → (p.chat sub w).2 ≡ suc w
counts_one {sub} {w} known one =
    subst (λ (x : Provider ℤ ℕ). (x.chat sub w).2 ≡ suc w) (some-injective _ _ known) one

overloaded-Meters : Meters quiet (router_with overloaded) (question "chat-default") (λ (w : ℕ). w)
unfolding routing router_with
overloaded-Meters = record {
  at_ctx = λ w. refl;
  at_wait = λ d w. refl;
  at_rand = λ n w. refl;
  at_allow = λ name l w set. cc;
  at_call = λ name p sub w known. elim (Bool-cases (str_eq "anthropic" name)) [
    | inl e ↦ counts_one (rw e at known) refl
    | inr e ↦ elim (Bool-cases (str_eq "openai" name)) [
      | inl u ↦ counts_one (rw (e, u) at known) refl
      | inr u ↦ let bad : none ≡ some p = rw (e, u) at known in cc
    ]
  ];
}

chat_calls_example :
    (chat quiet (router_with overloaded) (question "chat-default") 0).1
    ≤ 0 + length both.targets * attempts_of (router_with overloaded).retry
unfolding routing router_with
chat_calls_example =
    chat_calls quiet (router_with overloaded) (question "chat-default") (λ w. w) overloaded-Meters
      both 0 refl
