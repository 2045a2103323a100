-- ===== src/Tests/EndToEnd.antt =====
-- A process whose backend always answers, and one request.
use llm_gateway_platform.Prelude.{ℕ, String, ◌≡◌, refl, some, [], ◌∷◌}
use llm_gateway_platform.Prelude.Int.{ℤ, pos}
use llm_gateway_platform.Prelude.Dict.{lookup}
use llm_gateway_platform.Float.Nano.{nano}
use llm_gateway_platform.Http.{ok, Doer}
use llm_gateway_platform.Anthropic.Chat as Messages
use llm_gateway_platform.Router.{Router}
use llm_gateway_platform.Server.{ChatCompletionRequest}
use llm_gateway_platform.Server.Mux.{new}
use llm_gateway_platform.Gateway.{Backends, build}
use llm_gateway_platform.Gateway.Registration.{ArePlain}
use llm_gateway_platform.Main.{Launched, level_info, new_logger, launch}
use llm_gateway_platform.Main.EndToEnd.{Answers, First, Serves, launch-Serves}
use llm_gateway_platform.Tests.Retry.{quiet, quiet-Interrupts}
use llm_gateway_platform.Tests.Adapters.{toy_codec, claude_reply}
use llm_gateway_platform.Tests.Gateway.{
  system, cfg, loaded, backends, backends-ArePlain, building, client, router, table, ask,
}

-- A transport that always answers 200.
abbrev always : Doer ℕ
always = record { perform = λ q w. (ok (record { status_code = 200; body = ok "{}" }), w) }

abbrev willing : Backends ℤ String ℕ ℕ
willing = record backends { transport = λ _. always }

willing-ArePlain : ArePlain willing
willing-ArePlain = record {
  anthropic_plain = backends-ArePlain.anthropic_plain;
  openai_plain = backends-ArePlain.openai_plain;
  bedrock_plain = backends-ArePlain.bedrock_plain;
}

always-Answers : Answers (toy_codec claude_reply) always claude_reply
always-Answers = record {
  payload = "{}";
  encodes = λ body. ("{}", refl);
  addressed = refl;
  replies = λ q w. refl;
  decodes = refl;
}

abbrev willing_router : Router ℤ ℕ
willing_router = record router {
  providers =
      ("anthropic", Messages.as_provider (toy_codec claude_reply) (record client { http = always }))
      ∷ [];
}

willing_built : build nano willing cfg ≡ ok (willing_router, table)
unfolding building
willing_built = refl

abbrev process : Launched ℤ ℕ
process = record { log = level_info; server = new cfg willing_router (some table) }

launched : launch nano willing system ≡ ok process
unfolding launch new_logger
launched = rw (loaded, willing_built) refl

abbrev question : ChatCompletionRequest ℤ
question = record ask { max_tokens = pos 16 }

default-First :
    First nano quiet quiet-Interrupts willing willing-ArePlain cfg claude_reply always-Answers
      "chat-default"
unfolding lookup
default-First = record {
  target = record { provider = "anthropic"; model = "claude-opus-4-8" };
  later = [];
  map_of_routes = (refl, tt);
  configured = refl;
  of_anthropic = refl;
  key = refl;
}

launch-Serves_example :
    Serves nano quiet quiet-Interrupts willing willing-ArePlain cfg claude_reply always-Answers
      question "team" 0 process.server
launch-Serves_example =
    launch-Serves nano quiet quiet-Interrupts willing willing-ArePlain cfg claude_reply
      always-Answers system process question "team" 0 launched loaded default-First refl refl refl
