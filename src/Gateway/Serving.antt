-- ===== src/Gateway/Serving.antt =====
-- The server of cmd/gateway/main.go, whose router and price table are those that `Build` of
-- internal/gateway/build.go returns.
use llm_gateway_platform.Prelude.{String, ◌≡◌, Option, some}
use llm_gateway_platform.Float.{Float}
use llm_gateway_platform.Runtime.{Env}
use llm_gateway_platform.Http.{ok}
use llm_gateway_platform.Router.{Router}
use llm_gateway_platform.Pricing.{Table}
use llm_gateway_platform.Server.{ChatCompletionRequest, panic, handle_chat_completions}
use llm_gateway_platform.Server.Panics.{SendsUnwritable, handler_panics}
use llm_gateway_platform.Config.{Config}
use llm_gateway_platform.Gateway.{Backends, build}
use llm_gateway_platform.Gateway.Registration.{ArePlain}
use llm_gateway_platform.Gateway.Wired.{build-Wired}

-- Where no error of the codings wraps a *provider.Error: on a router and a table that `Build`
-- returned the handler panics only where the last failure of `Chat` carries a status that is not 0 and
-- has not three digits, whatever the configuration says and the backends reply.
pub built_panics :
    {F K T W : Type 0} (f : Float F) (env : Env W) (b : Backends F K T W) (cfg : Config F)
    (r : Router F W) (table : Table F) (req : Option (ChatCompletionRequest F)) (caller : String)
    (w : W)
    → ArePlain b
    → build f b cfg ≡ ok (r, table)
    → (handle_chat_completions f env r (some table) req caller w).0 ≡ panic
    → SendsUnwritable f env r (some table) req caller w
built_panics f env b cfg r table req caller w plainly built =
    handler_panics f env r (some table) req caller w
      (build-Wired f b plainly cfg r table built).exclusive
