-- ===== src/Lib.antt =====
-- llm-gateway-platform: a gateway that puts one API in front of several LLM providers.
--
-- A request goes through these parts. The HTTP handler (internal/server) decodes it and asks the
-- router (internal/router). The router resolves the logical model to a chain of targets and tries
-- them in order; before each call it asks the provider's rate limiter (internal/ratelimit), and it
-- calls the provider through the retry loop (internal/retry). Providers implement the interface of
-- pkg/provider and report errors of pkg/provider/errors.go, which the retry loop, the router and the
-- handler classify. The handler prices the response (internal/pricing) and answers. The three adapters
-- (pkg/provider/anthropic, openai and bedrock) are the providers; internal/gateway registers them, and
-- installs the routes and the prices, as the environment says (internal/config). The process
-- (cmd/gateway) reads that configuration, has the gateway built, and runs the server until a signal.
--
-- Files and code:
--   Provider             pkg/provider/provider.go: the types of requests and responses
--   Provider/Errors      pkg/provider/errors.go, and errors.Is, errors.As and Unwrap
--   Retry                internal/retry/retry.go: Policy, backoff, sleep, Do (`run`)
--   RateLimit            internal/ratelimit/ratelimit.go: New, Allow, Wait, refill
--   Router, Router/Chat  internal/router/router.go: the registry, and Chat
--   Router/Offers        what Chat promises, as a function of a list of offers, without the world
--   Router/Registry      what the setters promise, as commands on four functions
--   Pricing              internal/pricing/pricing.go: DefaultTable, Merge, Validate, Cost
--   Server               internal/server/server.go: the handlers and writeChatError
--   Server/Mux           New and registerRoutes, and the part of net/http's ServeMux that they use
--   Server/Lifecycle     Start, as the steps of its two goroutines over the channel errCh
--   Http                 net/http and encoding/json, as the adapters call them, and
--                        pkg/provider/transport.go
--   Adapter              the shape of the two results of an adapter's Chat, and how a call may end
--   Anthropic            pkg/provider/anthropic/anthropic.go: the mappings; Chat in Anthropic/Chat
--   Openai               pkg/provider/openai/openai.go: the mappings; Chat in Openai/Chat
--   Bedrock              pkg/provider/bedrock/bedrock.go: the mappings; Chat in Bedrock/Chat
--   Bedrock/SigV4        pkg/provider/bedrock/sigv4.go: NewSigV4Signer and Sign
--   Config               internal/config/config.go: Load, validate and the getters
--   Gateway              internal/gateway/build.go: Build; Gateway/Serving has the whole gateway
--   Main                 cmd/gateway/main.go: run up to Start, newLogger and the exit code;
--                        Main/EndToEnd has a request from the process's environment to its answer
--   Runtime              the context, the timers and math/rand, as the code calls them
--   Float                float64, as the code calls it
--   Prelude              shared names, int64, maps, and the texts that fmt builds
--   Tests                runs on small inputs, and each theorem at a concrete input
-- The modules below a component hold its proofs, and are named for what they prove.
--
-- How the code is modelled. State outside the model, which other goroutines and the passing of time
-- change as well, is a type W; a call that may change it takes a world and returns one. So the
-- context, the timers and the random numbers are a record of functions on W (Runtime), a provider and
-- a limiter, as the router sees them, are records of functions on W, and the limiter object is a
-- place in W. A function with early returns is cut into stages, one for each call whose result it
-- tests. Errors are values of a data type, with the wrapping that errors.Is and errors.As follow.
-- `int` and `time.Duration` are integers that wrap at 64 bits where the code computes with them.
-- Maps are association lists in the order in which `range` visits them. float64 is a record of
-- operations; what is asked of it (IsIeee) is true of IEEE 754 arithmetic, and decimal fixed-point
-- numbers (Float/Nano) meet it. Formatted texts are kept as the pieces of their format.
--
-- Loops. The loop of Do recurs on the rounds left, which are MaxAttempts at the start, and the loop of
-- Chat on the targets. Wait of the limiter may turn for ever and runs on fuel; more fuel than sleeps
-- is enough.
--
-- net/http's client, as a function of its settings, the JSON codings, url.PathEscape, the parts of a URL, SHA-256 and HMAC, and
-- time.ParseDuration are parameters. What is asked of a coding or a signer (IsPlain, IsPlainSigner) is
-- that its errors wrap no *provider.Error, which is a type that they do not know; of ParseDuration
-- (NeedsUnit), that it refuses a number without a unit, but for 0. strconv.Atoi is a definition
-- (Prelude/Decimal).
--
-- The two goroutines of Start are a family of steps on one state (Server/Lifecycle), taken in any
-- order; a signal, and the ways in which ListenAndServe and Shutdown may return, are steps of it as
-- well. The throughput of a limiter is stated for an arithmetic that rounds to the nearest number, with
-- the size of a rounding as a parameter (RateLimit/Throughput).
--
-- Not modelled: the log lines, the mutexes (a method is one step), JSON text, and what net/http does
-- with a connection. ServeMux is modelled for the three patterns of the program and clean paths.
pub mod Prelude
pub mod Provider
pub mod Float
pub mod Http
pub mod Runtime
pub mod RateLimit
pub mod Retry
pub mod Router
pub mod Adapter
pub mod Anthropic
pub mod Openai
pub mod Bedrock
pub mod Config
pub mod Gateway
pub mod Main
pub mod Pricing
pub mod Server
pub mod Tests
