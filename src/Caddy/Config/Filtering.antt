-- ===== src/Caddy/Config/Filtering.antt =====
-- The hosts that the filter of a route leaves.
use cadder.Base.{
  String, ◌≡◌, refl, Bool, true, false, Option, List, [], ◌∷◌, ◌==◌, string_eq, arith, All,
  All-append, Bool-cases, inl, inr,
}
use cadder.Caddy.Domains.{DomainSet, set_member}
use cadder.Caddy.Json.{
  Value, null, bool, number, string, array, object, Items, nil, cons, Fields, end, field, from_list,
}
use cadder.Caddy.Config.{filter_routes}
use cadder.Caddy.Config.Routes.{
  retain_hosts, filter_member, filter_hosts, filter_items, filter_fields, filter_route_hosts,
  retained_any, host_texts, member_hosts, hosts_of, items_hosts, fields_hosts,
}

module _ (to_ascii : String → Option String) (hosts : DomainSet) where
  abbrev pub IsHost : String → Type 0
  IsHost k = set_member k hosts ≡ true

  host_texts-retain :
      (vs : Items) → All IsHost (host_texts to_ascii (retain_hosts to_ascii hosts vs))
  unfolding retain_hosts
  host_texts-retain nil = tt
  host_texts-retain (cons (string s) vs) = ground (arith, host_texts-retain vs)
  host_texts-retain (cons null vs) = host_texts-retain vs
  host_texts-retain (cons (bool b) vs) = host_texts-retain vs
  host_texts-retain (cons (number n) vs) = host_texts-retain vs
  host_texts-retain (cons (array ws) vs) = host_texts-retain vs
  host_texts-retain (cons (object fs) vs) = host_texts-retain vs

  items_hosts-retain : (vs : Items) → items_hosts to_ascii (retain_hosts to_ascii hosts vs) ≡ []
  unfolding retain_hosts hosts_of
  items_hosts-retain nil = refl
  items_hosts-retain (cons (string s) vs) = ground (arith, items_hosts-retain vs)
  items_hosts-retain (cons null vs) = items_hosts-retain vs
  items_hosts-retain (cons (bool b) vs) = items_hosts-retain vs
  items_hosts-retain (cons (number n) vs) = items_hosts-retain vs
  items_hosts-retain (cons (array ws) vs) = items_hosts-retain vs
  items_hosts-retain (cons (object fs) vs) = items_hosts-retain vs

  -- A filtered member names enabled hosts alone, if its walked value does.
  filter_member-IsHost :
      (b : Bool) (v : Value)
      → All IsHost (hosts_of to_ascii (filter_hosts to_ascii hosts v))
      → All IsHost (
          member_hosts to_ascii b
            (filter_member to_ascii hosts b v (filter_hosts to_ascii hosts v)))
        × All IsHost
            (hosts_of to_ascii (filter_member to_ascii hosts b v (filter_hosts to_ascii hosts v)))
  unfolding hosts_of filter_hosts
  filter_member-IsHost true (array vs) h = (host_texts-retain vs, rw (items_hosts-retain vs) tt)
  filter_member-IsHost true v h = (tt, h)
  filter_member-IsHost false v h = (tt, h)

  mutual
    unfolding hosts_of filter_hosts

    -- Whatever hosts a filtered route names, at any depth, are enabled.
    filter_hosts-IsHost :
        (v : Value) → All IsHost (hosts_of to_ascii (filter_hosts to_ascii hosts v))
    filter_hosts-IsHost (array vs) = filter_items-IsHost vs
    filter_hosts-IsHost (object fs) = filter_fields-IsHost fs
    filter_hosts-IsHost null = tt
    filter_hosts-IsHost (bool b) = tt
    filter_hosts-IsHost (number n) = tt
    filter_hosts-IsHost (string s) = tt

    filter_items-IsHost :
        (vs : Items) → All IsHost (items_hosts to_ascii (filter_items to_ascii hosts vs))
    filter_items-IsHost nil = tt
    filter_items-IsHost (cons v vs) =
        All-append IsHost (hosts_of to_ascii (filter_hosts to_ascii hosts v)) _
          (filter_hosts-IsHost v) (filter_items-IsHost vs)

    filter_fields-IsHost :
        (fs : Fields) → All IsHost (fields_hosts to_ascii (filter_fields to_ascii hosts fs))
    filter_fields-IsHost end = tt
    filter_fields-IsHost (field k v fs) =
        let (own, below) = filter_member-IsHost (k == "host") v (filter_hosts-IsHost v) in
        All-append IsHost
          (member_hosts to_ascii (k == "host")
            (filter_member to_ascii hosts (k == "host") v (filter_hosts to_ascii hosts v)))
          _ own
          (All-append IsHost
            (hosts_of to_ascii
              (filter_member to_ascii hosts (k == "host") v (filter_hosts to_ascii hosts v)))
            _ below (filter_fields-IsHost fs))

  pub filter_routes-IsHost :
      (vs : List Value)
      → All IsHost (items_hosts to_ascii (from_list (filter_routes to_ascii hosts vs)))
  unfolding filter_routes filter_route_hosts hosts_of
  filter_routes-IsHost [] = tt
  filter_routes-IsHost (v ∷ vs) = elim (Bool-cases (retained_any to_ascii hosts v)) [
    | inl kept ↦
        rw (kept, filter_routes)
          (All-append IsHost (hosts_of to_ascii (filter_hosts to_ascii hosts v)) _
            (filter_hosts-IsHost v) (filter_routes-IsHost vs))
    | inr dropped ↦ rw (dropped, filter_routes) (filter_routes-IsHost vs)
  ]
