-- ===== src/Server/Mux.antt =====
-- `New` and `registerRoutes` of internal/server/server.go, with the part of net/http's ServeMux that
-- the program uses: patterns of a method and a path with no wildcard, asked for paths that are clean
-- (ServeMux redirects others, such as "//healthz", to the clean path).
use llm_gateway_platform.Prelude.{
  String, Bool, false, ◌&&◌, ◌||◌, Option, none, some, List, [], ◌∷◌, ◌++◌, str_eq, if◌then◌else◌,
}
use llm_gateway_platform.Prelude.Int.{ℤ}
use llm_gateway_platform.Float.{Float}
use llm_gateway_platform.Runtime.{Env}
use llm_gateway_platform.Config.{Config}
use llm_gateway_platform.Router.{Router}
use llm_gateway_platform.Pricing.{Table}
use llm_gateway_platform.Server.{
  ChatCompletionRequest, Reply, handle_health, handle_ready, handle_chat_completions,
}

-- "METHOD /path"
pub record Pattern : Type 0 where
  pub method : String
  pub path : String

pub data Handler : Type 0 where
  health : Handler
  ready : Handler
  chat_completions : Handler

abbrev pub Mux : Type 0
Mux = List (Pattern × Handler)

-- `mux.HandleFunc`
abbrev pub handle_func : String → String → Handler → Mux → Mux
handle_func method path h mux = mux ++ (record { method = method; path = path }, h) ∷ []

-- `registerRoutes`, on the empty mux of `http.NewServeMux`
unfoldable pub register_routes : Mux → Mux
register_routes mux =
    handle_func "POST" "/v1/chat/completions" chat_completions
      (handle_func "GET" "/readyz" ready (handle_func "GET" "/healthz" health mux))

-- A pattern with GET matches HEAD as well.
abbrev allows : String → String → Bool
allows pattern method = str_eq pattern method || (str_eq pattern "GET" && str_eq method "HEAD")

-- The handler whose pattern matches.
abbrev pub find_handler : Mux → String → String → Option Handler
find_handler [] method path = none
find_handler ((p, h) ∷ mux) method path =
    let rest = find_handler mux method path in
    if str_eq p.path path && allows p.method method then some h else rest

-- Some pattern has the path.
abbrev pub has_path : Mux → String → Bool
has_path [] path = false
has_path ((p, h) ∷ mux) path = str_eq p.path path || has_path mux path

-- `http.Server`, and `Server`
pub record HttpServer : Type 0 where
  pub addr : String
  pub read_timeout : ℤ
  pub write_timeout : ℤ

pub record Server (F W : Type 0) : Type 0 where
  pub cfg : Config F
  pub router : Router F W
  pub pricing : Option (Table F)
  pub http : HttpServer
  pub routes : Mux

-- `New`
unfoldable pub new : {F W : Type 0} → Config F → Router F W → Option (Table F) → Server F W
new cfg rtr pricer = record {
  cfg = cfg;
  router = rtr;
  pricing = pricer;
  http = record {
    addr = cfg.http_addr;
    read_timeout = cfg.read_timeout;
    write_timeout = cfg.write_timeout;
  };
  routes = register_routes [];
}

-- An incoming request: `body` is what its JSON decodes to, `caller` the header `X-Gateway-Caller`.
pub record Incoming (F : Type 0) : Type 0 where
  pub method : String
  pub path : String
  pub caller : String
  pub body : Option (ChatCompletionRequest F)

-- What comes of a request: a handler's reply, or one of ServeMux's own, 404 and 405.
pub data Served (F : Type 0) : Type 0 where
  handled : Reply F → Served F
  not_found : Served F
  method_not_allowed : Served F

module _ {F W : Type 0} (f : Float F) (env : Env W) (s : Server F W) where
  abbrev pub invoke : Handler → Incoming F → W → Served F × W
  invoke health req w = (handled handle_health, w)
  invoke ready req w = (handled handle_ready, w)
  invoke chat_completions req w =
      let (reply, w') = handle_chat_completions f env s.router s.pricing req.body req.caller w in
      (handled reply, w')

  -- After the search of the mux.
  abbrev pub after_find : Option Handler → Incoming F → W → Served F × W
  after_find none req w =
      if has_path s.routes req.path then (method_not_allowed, w) else (not_found, w)
  after_find (some h) req w = invoke h req w

  -- `ServeHTTP` of the server's handler, the mux.
  unfoldable pub serve_http : Incoming F → W → Served F × W
  serve_http req w = after_find (find_handler s.routes req.method req.path) req w
