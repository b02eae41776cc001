-- ===== src/Caddy/Config.antt =====
-- crates/cadder-daemon/src/caddy/configuration.rs: the walks over a configuration, the composition
-- of the effective configuration, and the domain conflicts. The maps of `serde_json` are sorted, so
-- the objects are written with their keys in order.
pub mod Routes
pub mod Filtering
pub mod Isolation
use Prim.Native.String as Str
use cadder.Base.{
  ℕ, ◌<◌, String, Bool, true, false, ◌&&◌, ◌||◌, Option, none, some, List, [], ◌∷◌, ◌++◌, map,
  filter, if◌then◌else◌, ◌==◌, string_eq, is_empty,
}
use cadder.Base.Dict.{Dict, lookup}
use cadder.Caddy.Domains.{DomainSet, set_member, set_of, set_list, canonicalize_domain}
use cadder.Caddy.Json.{
  Value, null, bool, number, string, array, object, Items, nil, cons, Fields, end, field, as_str,
  from_list, to_list,
}
use cadder.Protocol.State.{is_enabled, RegisteredDomain, EntrypointRegistration}
use Routes.{namespace_config_ids, filter_route_hosts, obj, texts}

unfoldable pub active_domains : EntrypointRegistration → DomainSet
unfolding set_of is_enabled
active_domains r = set_of [] (
    map (λ (d : RegisteredDomain). d.name.canonical)
      (filter (λ d. is_enabled d.activation_state) r.registered_domains))

-- `filter_map` over the source's routes.
pub filter_routes : (String → Option String) → DomainSet → List Value → List Value
unfolding filter_route_hosts
filter_routes to_ascii hosts [] = []
filter_routes to_ascii hosts (v ∷ vs) =
    let rest = filter_routes to_ascii hosts vs in
    elim (filter_route_hosts to_ascii hosts v) [ none ↦ rest | some w ↦ w ∷ rest ]

abbrev placeholder_route : String → Value
placeholder_route host = obj (
    (
      "handle",
      array (
          from_list (
            obj (
              ("body", string "Cadder route placeholder")
              ∷ ("handler", string "static_response")
              ∷ [])
            ∷ [])),
    )
    ∷ ("match", array (from_list (obj (("host", texts (host ∷ [])) ∷ []) ∷ [])))
    ∷ ("terminal", bool true)
    ∷ [])

unfoldable pub registration_routes :
    (String → Option String) → Dict (List Value) → DomainSet → EntrypointRegistration → List Value
unfolding lookup filter_routes
registration_routes to_ascii routes hosts r = elim (lookup r.registration_id routes) [
  | some source ↦ filter_routes to_ascii hosts source
  | none ↦ map placeholder_route (set_list hosts)
]

unfoldable pub guard_registration_routes : List Value → DomainSet → Option Value
guard_registration_routes [] hosts = none
guard_registration_routes (v ∷ vs) hosts = some (
    obj (
      (
        "handle",
        array (
            from_list (
              obj (("handler", string "subroute") ∷ ("routes", array (from_list (v ∷ vs))) ∷ [])
              ∷ [])),
      )
      ∷ ("match", array (from_list (obj (("host", texts (set_list hosts)) ∷ []) ∷ [])))
      ∷ ("terminal", bool true)
      ∷ []))

-- The guarded route of one registration, if it has an enabled domain and a route.
unfoldable pub guarded_route :
    (String → Option String) → Dict (List Value) → EntrypointRegistration → Option Value
unfolding active_domains registration_routes guard_registration_routes
guarded_route to_ascii routes r =
    let hosts = active_domains r in
    if is_empty hosts
    then none
    else guard_registration_routes (registration_routes to_ascii routes hosts r) hosts

unfoldable pub compose_routes :
    (String → Option String) → Dict (List Value) → List EntrypointRegistration → List Value
unfolding guarded_route
compose_routes to_ascii routes [] = []
compose_routes to_ascii routes (r ∷ rs) =
    let rest = compose_routes to_ascii routes rs in
    elim (guarded_route to_ascii routes r) [ none ↦ rest | some v ↦ v ∷ rest ]

unfoldable pub tls_subjects : DomainSet → List EntrypointRegistration → DomainSet
unfolding active_domains set_of
tls_subjects subjects [] = subjects
tls_subjects subjects (r ∷ rs) = tls_subjects (set_of subjects (set_list (active_domains r))) rs

abbrev listener : String → String → Value
listener v4 v6 = texts (v4 ∷ v6 ∷ [])

unfoldable pub compose_config :
    (String → Option String) → List EntrypointRegistration → Dict (List Value) → Value
unfolding compose_routes tls_subjects namespace_config_ids
compose_config to_ascii rs by_registration =
    let routes = compose_routes to_ascii by_registration rs in
    obj (
      ("admin", obj (("listen", string "localhost:2019") ∷ []))
      ∷ (
        "apps",
        obj (
            (
              "http",
              obj (
                  (
                    "servers",
                    obj (
                        (
                          "cadder_http",
                          obj (
                              ("listen", listener "127.0.0.1:80" "[::1]:80")
                              ∷ (
                                "routes",
                                array (from_list (map (namespace_config_ids "http_") routes)),
                              )
                              ∷ []),
                        )
                        ∷ (
                          "cadder_https",
                          obj (
                              ("listen", listener "127.0.0.1:443" "[::1]:443")
                              ∷ ("routes", array (from_list routes))
                              ∷ ("tls_connection_policies", array (from_list (obj [] ∷ [])))
                              ∷ []),
                        )
                        ∷ []),
                  )
                  ∷ []),
            )
            ∷ (
              "tls",
              obj (
                  (
                    "automation",
                    obj (
                        (
                          "policies",
                          array (
                              from_list (
                                obj (
                                  (
                                    "issuers",
                                    array
                                        (from_list (obj (("module", string "internal") ∷ []) ∷ [])),
                                  )
                                  ∷ ("subjects", texts (set_list (tls_subjects [] rs)))
                                  ∷ [])
                                ∷ [])),
                        )
                        ∷ []),
                  )
                  ∷ []),
            )
            ∷ []),
      )
      ∷ [])
