-- ===== src/Server/Dispatch.antt =====
-- Which requests reach which handler of internal/server/server.go.
use llm_gateway_platform.Prelude.{
  String, ◌≡◌, refl, Bool, true, false, ◌||◌, Option, none, some, [], arith, str_eq, eq_iff,
  if◌then◌else◌, Bool-cases, inl, inr,
}
use llm_gateway_platform.Float.{Float}
use llm_gateway_platform.Runtime.{Env}
use llm_gateway_platform.Config.{Config}
use llm_gateway_platform.Router.{Router}
use llm_gateway_platform.Pricing.{Table}
use llm_gateway_platform.Server.{write, report, handle_chat_completions}
use llm_gateway_platform.Server.Mux.{
  Handler, health, ready, chat_completions, register_routes, find_handler, has_path, new, Incoming,
  Served, handled, not_found, method_not_allowed, invoke, after_find, serve_http,
}

-- The path is one of the two that only tell the state of the process.
abbrev is_probe : String → Bool
is_probe path = str_eq "/healthz" path || str_eq "/readyz" path

-- The methods that a pattern with GET allows.
abbrev is_read : String → Bool
is_read method = str_eq "GET" method || str_eq method "HEAD"

find_handler-routes :
    (method path : String)
    → find_handler (register_routes []) method path ≡ (
        if str_eq "/v1/chat/completions" path
        then if str_eq "POST" method then some chat_completions else none
        else if str_eq "/healthz" path
        then if is_read method then some health else none
        else if str_eq "/readyz" path
        then if is_read method then some ready else none
        else none)
unfolding register_routes
find_handler-routes method path = elim (Bool-cases (str_eq "/v1/chat/completions" path)) [
  | inl chat ↦ rw (← (eq_iff "/v1/chat/completions" path).0 chat) (ground arith)
  | inr other ↦ rw other (elim (Bool-cases (str_eq "/healthz" path)) [
    | inl probe ↦ rw (← (eq_iff "/healthz" path).0 probe) (ground arith)
    | inr neither ↦ rw neither (ground arith)
  ])
]

has_path-routes :
    (path : String)
    → has_path (register_routes []) path
      ≡ (str_eq "/v1/chat/completions" path || str_eq "/healthz" path || str_eq "/readyz" path)
unfolding register_routes
has_path-routes path = ground arith

module _ {F W : Type 0} (f : Float F) (env : Env W) (cfg : Config F) (router : Router F W)
    (pricer : Option (Table F)) where
  abbrev chat_reply : Incoming F → W → Served F × W
  chat_reply req w =
      let (reply, w') = handle_chat_completions f env router pricer req.body req.caller w in
      (handled reply, w')

  -- The three paths of the service, described by path and then by method.
  unfoldable pub expected : Incoming F → W → Served F × W
  expected req w =
      if str_eq "/v1/chat/completions" req.path
      then if str_eq "POST" req.method then chat_reply req w else (method_not_allowed, w)
      else if str_eq "/healthz" req.path
      then if is_read req.method
        then (handled (write 200 (report "ok")), w)
        else (method_not_allowed, w)
      else if str_eq "/readyz" req.path
      then if is_read req.method
        then (handled (write 200 (report "ready")), w)
        else (method_not_allowed, w)
      else (not_found, w)

  -- A pattern of the path, whose method may be another.
  after_find-if :
      (b : Bool) (h : Handler) (req : Incoming F) (w : W)
      → has_path (register_routes []) req.path ≡ true
      → after_find f env (new cfg router pricer) (if b then some h else none) req w
        ≡ (if b then invoke f env (new cfg router pricer) h req w else (method_not_allowed, w))
  unfolding new
  after_find-if true h req w known = refl
  after_find-if false h req w known = rw known

  after_find-none :
      (req : Incoming F) (w : W)
      → has_path (register_routes []) req.path ≡ false
      → after_find f env (new cfg router pricer) none req w ≡ (not_found, w)
  unfolding new
  after_find-none req w unknown = rw unknown

  -- Every request for a clean path is dispatched by its path and its method: POST on
  -- "/v1/chat/completions" to the chat handler; GET and HEAD on "/healthz" and "/readyz" to an answer
  -- 200, the world being left as it is; another method on one of these paths gets 405 and any other
  -- path 404, and both leave the world as it is.
  pub serve_http-expected :
      (req : Incoming F) (w : W) → serve_http f env (new cfg router pricer) req w ≡ expected req w
  unfolding serve_http new expected
  serve_http-expected req w =
      rw (find_handler-routes req.method req.path)
        (elim (Bool-cases (str_eq "/v1/chat/completions" req.path)) [
          | inl chat ↦ rw chat (
              after_find-if (str_eq "POST" req.method) chat_completions req w
                (rw (has_path-routes req.path, chat)))
          | inr other ↦ rw other (elim (Bool-cases (str_eq "/healthz" req.path)) [
            | inl probe ↦ rw probe (
                after_find-if (is_read req.method) health req w
                  (rw (has_path-routes req.path, probe) (ground arith)))
            | inr unlike ↦ rw unlike (elim (Bool-cases (str_eq "/readyz" req.path)) [
              | inl probe ↦ rw probe (
                  after_find-if (is_read req.method) ready req w
                    (rw (has_path-routes req.path, probe) (ground arith)))
              | inr unknown ↦
                  rw unknown
                    (after_find-none req w (rw (has_path-routes req.path, other, unlike, unknown)))
            ])
          ])
        ])
