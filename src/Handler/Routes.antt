-- ===== src/Handler/Routes.antt =====
-- `InitRoutes` and `TrustedSubnetMiddleware` of
-- internal/handler/server/handler.go. Which endpoint a method and a path lead to is the router's
-- (github.com/go-chi/chi) and stands as a parameter; what each endpoint runs, and behind which
-- middleware, is the table of `InitRoutes`.
use go_yandex_metrics.Base.{
  ◌≡◌, refl, ◌⊎◌, inl, inr, Bool, true, false, not, Option, none, some, [], arith, if◌then◌else◌,
  Bool-cases, Option-cases,
}
use go_yandex_metrics.Base.Text.{Bytes}
use go_yandex_metrics.Repository.Contract.{Storage}
use go_yandex_metrics.Handler.Http.{
  Request, Library, Handler, World, write_header, call, served_status, body_of,
}
use go_yandex_metrics.Handler.Query.{
  ping, get_all_metrics, get_metrics_by_id, get_metrics_by_id_with_json,
}
use go_yandex_metrics.Handler.Update.{update_metrics, update_metrics_by_json, bulk_update_metrics}

-- The handlers that `InitRoutes` registers.
pub data Endpoint : Type 0 where
  value_by_id value_by_json updates update_by_url update_by_json ping_db all : Endpoint

-- The group behind the middleware of the trusted subnet.
unfoldable pub in_group : Endpoint → Bool
in_group updates = true
in_group update_by_url = true
in_group update_by_json = true
in_group _ = false

module _ (lib : Library) (st : Storage) (h : Handler) where
  unfoldable pub run_endpoint : Endpoint → Request → World st.State → World st.State
  run_endpoint value_by_id req w = get_metrics_by_id lib st h req w
  run_endpoint value_by_json req w = get_metrics_by_id_with_json lib st h req w
  run_endpoint updates req w = bulk_update_metrics lib st h req w
  run_endpoint update_by_url req w = update_metrics lib st h req w
  run_endpoint update_by_json req w = update_metrics_by_json lib st h req w
  run_endpoint ping_db req w = ping h w
  run_endpoint all req w = get_all_metrics lib st h w

  -- `TrustedSubnetMiddleware` over a handler.
  unfoldable pub trusted_subnet_middleware :
      (Bytes → Bool)
      → (Request → World st.State → World st.State)
      → Request
      → World st.State
      → World st.State
  trusted_subnet_middleware contains next req w = elim (lib.parse_ip (req.header "X-Real-IP")) [
    | none ↦ call (write_header 403) w
    | some agent_ip ↦ if not (contains agent_ip) then call (write_header 403) w else next req w
  ]

  -- A route of `InitRoutes`: the group uses the middleware if there is a trusted subnet.
  unfoldable pub serve_route : Endpoint → Request → World st.State → World st.State
  unfolding trusted_subnet_middleware
  serve_route e req w =
      if in_group e
      then elim h.trusted_subnet [
        | none ↦ run_endpoint e req w
        | some contains ↦ trusted_subnet_middleware contains (run_endpoint e) req w
      ]
      else run_endpoint e req w

  -- The address that a request names parses and lies in a subnet.
  abbrev pub IsInside : (Bytes → Bool) → Request → Type 0
  IsInside contains req =
      (ip : Bytes) × (lib.parse_ip (req.header "X-Real-IP") ≡ some ip) × (contains ip ≡ true)

  -- Nothing but the answer has changed, which is 403 with an empty body.
  abbrev pub Forbidden : World st.State → World st.State → Type 0
  Forbidden w w' =
      (served_status w'.calls ≡ 403)
      × (body_of w'.calls ≡ [])
      × (w'.state ≡ w.state)
      × (w'.published ≡ w.published)
      × (w'.crashed ≡ w.crashed)

  inside-dec : (contains : Bytes → Bool) (req : Request) → Dec (IsInside contains req)
  inside-dec contains req = elim (Option-cases (lib.parse_ip (req.header "X-Real-IP"))) [
    | inl unparsed ↦ no (λ (ip, parsed, inside). cc (unparsed, parsed))
    | inr (ip, parsed) ↦ elim (Bool-cases (contains ip)) [
      | inl inside ↦ yes (ip, parsed, inside)
      | inr foreign ↦ no (λ (ip', parsed', inside). cc (parsed, parsed', inside, foreign))
    ]
  ]

  guarded_route :
      (e : Endpoint) (contains : Bytes → Bool) (req : Request) (w : World st.State)
      → h.trusted_subnet ≡ some contains
      → in_group e ≡ true
      → w.calls ≡ []
      → (IsInside contains req × (serve_route e req w ≡ run_endpoint e req w))
        ⊎ (¬ (IsInside contains req) × Forbidden w (serve_route e req w))
  unfolding serve_route served_status body_of
  guarded_route e contains req w trusted guarded calls = elim (inside-dec contains req) [
    | yes (ip, parsed, inside) ↦
        inl ((ip, parsed, inside), ground (arith, trusted, guarded, parsed, inside))
    | no outside ↦ inr (
      outside,
      elim (Option-cases (lib.parse_ip (req.header "X-Real-IP"))) [
        | inl unparsed ↦ ground (arith, trusted, guarded, unparsed, calls)
        | inr (ip, parsed) ↦ elim (Bool-cases (contains ip)) [
          | inl inside ↦ absurd (outside (ip, parsed, inside))
          | inr foreign ↦ ground (arith, trusted, guarded, parsed, foreign, calls)
        ]
      ],
    )
  ]

  open_route :
      (e : Endpoint) (req : Request) (w : World st.State)
      → (h.trusted_subnet ≡ none) ⊎ (in_group e ≡ false)
      → serve_route e req w ≡ run_endpoint e req w
  unfolding serve_route
  open_route e req w (inl nothing) = ground (arith, nothing)
  open_route e req w (inr free) = ground (arith, free)

  -- What a request to an endpoint gets: a writing endpoint behind a trusted subnet runs exactly for
  -- the requests from inside, and answers the others with 403; every other endpoint, and every
  -- endpoint without a subnet, runs.
  pub RouteEnds : Endpoint → Option (Bytes → Bool) → Request → World st.State → Type 0
  RouteEnds value_by_id o req w = serve_route value_by_id req w ≡ get_metrics_by_id lib st h req w
  RouteEnds value_by_json o req w =
      serve_route value_by_json req w ≡ get_metrics_by_id_with_json lib st h req w
  RouteEnds ping_db o req w = serve_route ping_db req w ≡ ping h w
  RouteEnds all o req w = serve_route all req w ≡ get_all_metrics lib st h w
  RouteEnds updates none req w = serve_route updates req w ≡ bulk_update_metrics lib st h req w
  RouteEnds updates (some contains) req w =
      (IsInside contains req × (serve_route updates req w ≡ bulk_update_metrics lib st h req w))
      ⊎ (¬ (IsInside contains req) × Forbidden w (serve_route updates req w))
  RouteEnds update_by_url none req w =
      serve_route update_by_url req w ≡ update_metrics lib st h req w
  RouteEnds update_by_url (some contains) req w =
      (IsInside contains req × (serve_route update_by_url req w ≡ update_metrics lib st h req w))
      ⊎ (¬ (IsInside contains req) × Forbidden w (serve_route update_by_url req w))
  RouteEnds update_by_json none req w =
      serve_route update_by_json req w ≡ update_metrics_by_json lib st h req w
  RouteEnds update_by_json (some contains) req w =
      (IsInside contains req
        × (serve_route update_by_json req w ≡ update_metrics_by_json lib st h req w))
      ⊎ (¬ (IsInside contains req) × Forbidden w (serve_route update_by_json req w))

  -- For every endpoint, with and without a trusted subnet: the reading endpoints and the ping run
  -- their handlers for every request, and so do the three writing ones without a subnet. With a
  -- subnet, each of `/updates/`, `/update/` by URL and `/update` by JSON runs its handler for a
  -- request whose X-Real-IP parses to an address of the subnet, and answers any other request with
  -- 403, an empty body, no audit event and no change of the storage.
  pub serve_route-RouteEnds :
      (e : Endpoint) (req : Request) (w : World st.State)
      → w.calls ≡ []
      → RouteEnds e h.trusted_subnet req w
  unfolding RouteEnds run_endpoint in_group
  serve_route-RouteEnds e req w calls = go e h.trusted_subnet refl
    where
      go : (e : Endpoint) (o : Option (Bytes → Bool)) → h.trusted_subnet ≡ o → RouteEnds e o req w
      go value_by_id o t = open_route value_by_id req w (inr refl)
      go value_by_json o t = open_route value_by_json req w (inr refl)
      go ping_db o t = open_route ping_db req w (inr refl)
      go all o t = open_route all req w (inr refl)
      go updates none t = open_route updates req w (inl t)
      go updates (some contains) t = guarded_route updates contains req w t refl calls
      go update_by_url none t = open_route update_by_url req w (inl t)
      go update_by_url (some contains) t = guarded_route update_by_url contains req w t refl calls
      go update_by_json none t = open_route update_by_json req w (inl t)
      go update_by_json (some contains) t = guarded_route update_by_json contains req w t refl calls
