-- ===== src/Gateway/Order.antt =====
-- The loops of `Build` in internal/gateway/build.go range over Go maps, whose order Go chooses: the
-- order of the routes does not show.
use mathlib.Core.Path.{subst}
use mathlib.Core.Option.{some-injective}
use llm_gateway_platform.Prelude.{
  String, ◌≡◌, refl, sym, ◌∙◌, ap, inl, inr, Bool, none, some, List, [], ◌∷◌, map, arith, str_eq,
  eq_iff, eq_refl, All, Bool-cases, length, ◌==◌,
}
use llm_gateway_platform.Prelude.Dict.{Dict, lookup, IsMap, lookup-cons, lookup-nil}
use llm_gateway_platform.Float.{Float}
use llm_gateway_platform.Provider.{ChatRequest}
use llm_gateway_platform.Runtime.{Env}
use llm_gateway_platform.Http.{Fallible, ok, fail, ok-injective}
use llm_gateway_platform.Config.{RouteTarget, Config}
use llm_gateway_platform.Pricing.{Table}
use llm_gateway_platform.Router.{Router, resolve, lookup_provider, lookup_limiter, add_route}
use llm_gateway_platform.Router.Chat.{chat}
use llm_gateway_platform.Router.Agreement.{Agree, chat-Agree}
use llm_gateway_platform.Gateway.{
  Backends, Wiring, and_then, targets_of, install_routes, add_backends, after_backends, price_table,
  build, add_anthropic, add_openai, add_bedrock,
}
use llm_gateway_platform.Gateway.Routes.{
  and_then-ok, target_of, AllRegistered, route_or, install_routes-cons, install_routes_keeps,
  install_routes-lookup,
}

-- Two lists that stand for one map.
abbrev pub SameMap : {V : Type 0} → Dict V → Dict V → Type 0
SameMap d d' = IsMap d × IsMap d' × ((key : String) → lookup key d ≡ lookup key d')

module _ {V : Type 0} (P : V → Type 0) where
  abbrev pub Entries : Dict V → Type 0
  Entries = All (λ (entry : String × V). P entry.1)

  found_of-Entries : (d : Dict V) (key : String) (v : V) → Entries d → lookup key d ≡ some v → P v
  found_of-Entries [] key v h found = let bad : none ≡ some v = sym (lookup-nil key) ∙ found in cc
  found_of-Entries ((k, u) ∷ d) key v (here, h) found = elim (Bool-cases (str_eq k key)) [
    | inl same ↦ subst P (some-injective _ _ (rw (lookup-cons k key u d, same) at found)) here
    | inr other ↦ found_of-Entries d key v h (rw (lookup-cons k key u d, other) at found)
  ]

  all-Entries :
      (d : Dict V) → IsMap d → ((key : String) (v : V) → lookup key d ≡ some v → P v) → Entries d
  all-Entries [] m all = tt
  all-Entries ((k, u) ∷ d) (fresh, m) all = (
    all k u (rw (lookup-cons k k u d, eq_refl k) refl),
    all-Entries d m (λ key v found. all key v (elim (Bool-cases (str_eq k key)) [
      | inl same ↦ let clash : none ≡ some v = sym fresh ∙ (rw ((eq_iff k key).0 same) found) in cc
      | inr other ↦ rw (lookup-cons k key u d, other) found
    ])),
  )

module _ (registered : Dict Bool) where
  -- Every target of the list names a registered provider.
  abbrev pub AllKnown : List RouteTarget → Type 0
  AllKnown ts = AllRegistered registered (map target_of ts)

  targets_of_known :
      (name : String) (ts : List RouteTarget)
      → AllKnown ts
      → targets_of name registered ts ≡ ok (map target_of ts)
  unfolding targets_of
  targets_of_known name [] h = refl
  targets_of_known name (t ∷ ts) (known, h) = rw (known, targets_of_known name ts h)

  module _ {F W : Type 0} where
    pub install_routes-Entries :
        (routes : Dict (List RouteTarget)) (r r' : Router F W)
        → install_routes registered routes r ≡ ok r'
        → Entries AllKnown routes
    install_routes-Entries [] r r' h = tt
    install_routes-Entries ((name, ts) ∷ routes) r r' h =
        let (all, rest) = install_routes-cons registered name ts routes r r' h in
        (all, install_routes-Entries routes _ r' rest)

    pub install_routes_known :
        (routes : Dict (List RouteTarget)) (r : Router F W)
        → Entries AllKnown routes
        → (r' : Router F W) × (install_routes registered routes r ≡ ok r')
    unfolding install_routes
    install_routes_known [] r h = (r, refl)
    install_routes_known ((name, ts) ∷ routes) r (known, h) =
        let (r', rest) =
          install_routes_known routes (add_route name (record { targets = map target_of ts }) r)
            h in
        (r', rw (targets_of_known name ts known) rest)

    install_routes_policy :
        (routes : Dict (List RouteTarget)) (r r' : Router F W)
        → install_routes registered routes r ≡ ok r'
        → (r'.retry ≡ r.retry) × (r'.failover ≡ r.failover)
    unfolding install_routes add_route
    install_routes_policy [] r r' h = rw (← ok-injective h) (refl, refl)
    install_routes_policy ((name, ts) ∷ routes) r r' h =
        install_routes_policy routes (add_route name (record { targets = map target_of ts }) r) r'
          (install_routes-cons registered name ts routes r r' h).1

    resolve_same :
        (r r' : Router F W) (model : String)
        → lookup model r.routes ≡ lookup model r'.routes
        → r.fallback ≡ r'.fallback
        → resolve r model ≡ resolve r' model
    unfolding resolve
    resolve_same r r' model own default = ground (arith, own, default)

    install_routes-Agree :
        (routes routes' : Dict (List RouteTarget)) (r₀ r r' : Router F W)
        → SameMap routes routes'
        → install_routes registered routes r₀ ≡ ok r
        → install_routes registered routes' r₀ ≡ ok r'
        → Agree r r'
    unfolding lookup_provider lookup_limiter
    install_routes-Agree routes routes' r₀ r r' (m, m', same) h h' =
        let (providers, limiters, fallback) = install_routes_keeps registered routes r₀ r h in
        let (providers', limiters', fallback') = install_routes_keeps registered routes' r₀ r' h' in
        let (retry, failover) = install_routes_policy routes r₀ r h in
        let (retry', failover') = install_routes_policy routes' r₀ r' h' in
        record {
          providers = λ name. ap (lookup name) (providers ∙ sym providers');
          limiters = λ name. rw (limiters, limiters') refl;
          routes = λ model.
              resolve_same r r' model
                (install_routes-lookup registered model routes r₀ r m h
                  ∙ ap (λ o. route_or o (lookup model r₀.routes)) (same model)
                  ∙ sym (install_routes-lookup registered model routes' r₀ r' m' h'))
                (fallback ∙ sym fallback');
          retry = retry ∙ sym retry';
          failover = failover ∙ sym failover';
        }

    -- With the routes in another order the loop succeeds as well, and its router agrees.
    install_routes_again :
        (routes routes' : Dict (List RouteTarget)) (r₀ r : Router F W)
        → SameMap routes routes'
        → install_routes registered routes r₀ ≡ ok r
        → (r' : Router F W) × (install_routes registered routes' r₀ ≡ ok r') × Agree r r'
    install_routes_again routes routes' r₀ r (m, m', same) h =
        let known = install_routes-Entries routes r₀ r h in
        let (r', h') = install_routes_known routes' r₀ (
          all-Entries AllKnown routes' m'
            (λ key ts found. found_of-Entries AllKnown routes key ts known (same key ∙ found))) in
        (r', h', install_routes-Agree routes routes' r₀ r r' (m, m', same) h h')

-- The router beside the price table does not matter to whether the table validates.
priced_again :
    {R T : Type 0} (p : Fallible T) (r₁ r r' : R) (table : T)
    → and_then {B = R × T} p (λ t. ok (r₁, t)) ≡ ok (r, table)
    → (r₁ ≡ r) × (and_then {B = R × T} p (λ t. ok (r', t)) ≡ ok (r', table))
priced_again (fail e) r₁ r r' table h = cc
priced_again (ok t) r₁ r r' table h =
    (ap (λ x. x.0) (ok-injective h), ap (λ x. ok (r', x.1)) (ok-injective h))

module _ {F K T W : Type 0} (f : Float F) (b : Backends F K T W) where
  -- `Build` with the routes in another order.
  abbrev Rebuilt : Fallible (Router F W × Table F) → Router F W → Table F → Type 0
  Rebuilt built r table = (r' : Router F W) × (built ≡ ok (r', table)) × Agree r r'

  after_backends-Rebuilt :
      (cfg : Config F) (routes : Dict (List RouteTarget)) (w : Wiring F W) (r : Router F W)
      (table : Table F)
      → SameMap cfg.routes routes
      → after_backends f b cfg w ≡ ok (r, table)
      → Rebuilt (after_backends f b (record cfg { routes = routes }) w) r table
  unfolding after_backends
  after_backends-Rebuilt cfg routes w r table same h =
      elim (Bool-cases (length w.registered == 0)) [
        | inl none_there ↦ let bad = rw none_there at h in cc
        | inr some_there ↦
            let (r₁, installed, rest) =
              and_then-ok (install_routes w.registered cfg.routes w.router) _ (r, table)
                (rw some_there at h) in
            let (r', again, agree) =
              install_routes_again w.registered cfg.routes routes w.router r₁ same installed in
            let (kept, priced) = priced_again (price_table f b cfg.pricing) r₁ r r' table rest in
            (r', rw (some_there, again) priced, subst (λ q. Agree q r') kept agree)
      ]

  add_backends_again :
      (cfg : Config F) (routes : Dict (List RouteTarget))
      → add_backends f b (record cfg { routes = routes }) ≡ add_backends f b cfg
  unfolding add_backends add_anthropic add_openai add_bedrock
  add_backends_again cfg routes = refl

  build-Rebuilt :
      (cfg : Config F) (routes : Dict (List RouteTarget)) (r : Router F W) (table : Table F)
      → SameMap cfg.routes routes
      → build f b cfg ≡ ok (r, table)
      → Rebuilt (build f b (record cfg { routes = routes })) r table
  unfolding build
  build-Rebuilt cfg routes r table same h =
      let (w, added, rest) = and_then-ok (add_backends f b cfg) _ (r, table) h in
      let (r', rebuilt, agree) = after_backends-Rebuilt cfg routes w r table same rest in
      (r', rw (add_backends_again cfg routes, added) rebuilt, agree)

  -- Where `Build` succeeds, it succeeds as well, with the same price table, on every other list that
  -- stands for the same map of routes, so in whatever order Go visits the routes; and `Chat` on the
  -- two routers returns the same and leaves the same world, for every request, context and world.
  pub build_in_any_order :
      (cfg : Config F) (routes : Dict (List RouteTarget)) (r : Router F W) (table : Table F)
      → SameMap cfg.routes routes
      → build f b cfg ≡ ok (r, table)
      → (r' : Router F W) × (build f b (record cfg { routes = routes }) ≡ ok (r', table))
        × ((env : Env W) (req : ChatRequest F) (w : W) → chat env r req w ≡ chat env r' req w)
  build_in_any_order cfg routes r table same h =
      let (r', rebuilt, agree) = build-Rebuilt cfg routes r table same h in
      (r', rebuilt, λ env req w. chat-Agree env req r r' agree w)
