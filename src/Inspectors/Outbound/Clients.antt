-- ===== src/Inspectors/Outbound/Clients.antt =====
-- inspector_http_client.go: RegisterHttpClient. Clients are shared by address, and a registration
-- changes the transport of the client that it is given.
use go_debug_agent.Prelude.{
  ℕ, ◌+◌, ◌≤◌, ◌≡◌, List, [], ◌∷◌, Option, none, some, arith, Bool-cases, inl, inr, ap, refl, ◌==◌,
  sym, ◌∙◌, subst, if◌then◌else◌,
}
use go_debug_agent.Prelude.Map
use go_debug_agent.Prelude.Map.{text_key, nat_key, lookup-insert}
use go_debug_agent.Prelude.Text.{Text, text_eq}
use go_debug_agent.Inspectors.Outbound.Transport.{
  OutboundStats, OutboundRequest, Reply, RoundTripper, inner, tracking, depth, or_default,
  round_trip,
}
use go_debug_agent.Inspectors.Outbound.Totals.{IsTotalled, round_trip-IsTotalled}

-- The Transport fields of the clients, nil being `none`, and httpClientRegistry.
pub record Clients (T : Type 0) : Type 0 where
  pub transports : List (ℕ × Option (RoundTripper T))
  pub registry : List (Text × ℕ)

-- An entry of a map of pointers, with nil where it is missing.
unfoldable pub or_nil : {A : Type 0} → Option (Option A) → Option A
or_nil none = none
or_nil (some a) = a

-- The transport of the client at an address.
unfoldable pub transport_at : {T : Type 0} → ℕ → Clients T → Option (RoundTripper T)
unfolding or_nil
transport_at client s = or_nil (Map.lookup client s.transports)

unfoldable pub add_client : {T : Type 0} → Text → ℕ → Clients T → Clients T
add_client name client s = record s { registry = Map.insert name client s.registry }

-- What follows from the kind of a client's transport.
unfoldable pub register_transport : {T : Type 0} → Text → ℕ → RoundTripper T → Clients T → Clients T
unfolding add_client
register_transport name client (tracking rt) s = add_client name client s
register_transport name client (inner t) s =
    add_client name client
      (record s { transports = Map.insert client (some (tracking (inner t))) s.transports })

module _ {T : Type 0} (default_transport : RoundTripper T) where
  -- The transport that a client's calls go through.
  unfoldable pub effective : ℕ → Clients T → RoundTripper T
  effective client s = or_default default_transport (transport_at client s)

  unfoldable pub register_http_client : Text → Option ℕ → Clients T → Clients T
  register_http_client name none s = s
  register_http_client name (some client) s = register_transport name client (effective client s) s

  unfoldable pub register_http_clients : List (Text × Option ℕ) → Clients T → Clients T
  register_http_clients [] s = s
  register_http_clients (call ∷ calls) s =
      register_http_clients calls (register_http_client call.0 call.1 s)

  -- No client's transport is wrapped more than once, and that of a registered client is.
  abbrev pub IsWrapped : Clients T → Type 0
  IsWrapped s =
      ((client : ℕ) → depth (effective client s) ≤ 1)
      × ((name : Text) (client : ℕ)
          → Map.lookup name s.registry ≡ some client
          → depth (effective client s) ≡ 1)

  -- A transport is set for the one client.
  set_transport :
      (client c : ℕ) (rt : RoundTripper T) (transports : List (ℕ × Option (RoundTripper T)))
      (registry : List (Text × ℕ))
      → let s : Clients T = record { transports = transports; registry = registry } in
        let s' : Clients T = record s { transports = Map.insert client (some rt) transports } in
        depth (effective c s') ≡ (if client == c then depth rt else depth (effective c s))
  unfolding effective transport_at or_default or_nil
  set_transport client c rt transports registry =
      let reached : Option (Option (RoundTripper T)) → ℕ =
        λ o. depth (or_default default_transport (or_nil o)) in
      let set = lookup-insert client c (some rt) transports in
      elim (Bool-cases (client == c)) [
        | inl e ↦ rw e (ap reached (rw e at set))
        | inr e ↦ rw e (ap reached (rw e at set))
      ]

  -- The registration of a client whose transport is wrapped once.
  add_client-IsWrapped :
      (name : Text) (client : ℕ) (s : Clients T)
      → ((c : ℕ) → depth (effective c s) ≤ 1)
      → ((n : Text) (c : ℕ) → Map.lookup n s.registry ≡ some c → depth (effective c s) ≡ 1)
      → depth (effective client s) ≡ 1
      → IsWrapped (add_client name client s)
  unfolding add_client effective transport_at
  add_client-IsWrapped name client s once known h = (
    once,
    λ n c e.
        let chosen : (if text_eq name n then some client else Map.lookup n s.registry) ≡ some c =
          sym (lookup-insert name n client s.registry) ∙ e in
        elim (Bool-cases (text_eq name n)) [
          | inl t ↦
              let same : some client ≡ some c = rw t at chosen in
              let p : client ≡ c = cc in subst (λ a. depth (effective a s) ≡ 1) p h
          | inr t ↦ known n c (rw t at chosen)
        ],
  )

  register_transport-IsWrapped :
      (name : Text) (client : ℕ) (rt : RoundTripper T) (s : Clients T)
      → effective client s ≡ rt
      → IsWrapped s
      → IsWrapped (register_transport name client rt s)
  unfolding register_transport depth
  register_transport-IsWrapped name client (tracking rt) s e h =
      let at_most : depth (tracking rt) ≤ 1 = subst (λ t. depth t ≤ 1) e (h.0 client) in
      add_client-IsWrapped name client s h.0 h.1
        (ap depth e ∙ (let one : depth (tracking rt) ≡ 1 = omega (arith, at_most) in one))
  register_transport-IsWrapped name client (inner t) s e h =
      let set : (c : ℕ) → _ =
        λ c. set_transport client c (tracking (inner t)) s.transports s.registry in
      add_client-IsWrapped name client _ (λ c. ground (arith, set c, h.0 c))
        (λ n c f. ground (arith, set c, h.1 n c f)) (ground (arith, set client))

  register_http_client-IsWrapped :
      (name : Text) (client : Option ℕ) (s : Clients T)
      → IsWrapped s
      → IsWrapped (register_http_client name client s)
  unfolding register_http_client
  register_http_client-IsWrapped name none s h = h
  register_http_client-IsWrapped name (some client) s h =
      register_transport-IsWrapped name client (effective client s) s refl h

  register_http_clients-IsWrapped :
      (calls : List (Text × Option ℕ)) (s : Clients T)
      → IsWrapped s
      → IsWrapped (register_http_clients calls s)
  unfolding register_http_clients
  register_http_clients-IsWrapped [] s h = h
  register_http_clients-IsWrapped (call ∷ calls) s h =
      register_http_clients-IsWrapped calls (register_http_client call.0 call.1 s)
        (register_http_client-IsWrapped call.0 call.1 s h)

module _ {T W : Type 0} (now : W → ℕ × W) (send : T → OutboundRequest → W → Reply × W) where
  -- Where no client is wrapped more than once and those in the registry are, then after any
  -- registrations, of one client under several names or of nil, a call through a registered client
  -- is counted exactly once, and the hosts' statistics still sum to the totals.
  pub registered_call :
      (default_transport : RoundTripper T) (calls : List (Text × Option ℕ)) (clients : Clients T)
      (name : Text) (client : ℕ) (req : OutboundRequest) (stats : OutboundStats) (w : W)
      → IsWrapped default_transport clients
      → IsTotalled stats
      → let s = register_http_clients default_transport calls clients in
        Map.lookup name s.registry ≡ some client
        → let after = (round_trip now send (effective default_transport client s) req stats w).1 in
          (after.total_calls ≡ stats.total_calls + 1) × IsTotalled after
  registered_call default_transport calls clients name client req stats w wrapped totalled found =
      let s = register_http_clients default_transport calls clients in
      let h = register_http_clients-IsWrapped default_transport calls clients wrapped in
      let r =
        round_trip-IsTotalled now send (effective default_transport client s) req stats w
          totalled in
      (omega (arith, r.1, h.1 name client found), r.0)
