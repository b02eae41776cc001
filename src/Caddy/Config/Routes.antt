-- ===== src/Caddy/Config/Routes.antt =====
-- crates/cadder-daemon/src/caddy/configuration.rs: the recursive walks over one route. The walk of
-- the source goes into the hosts that it has just retained too; they are texts, at which it stops.
use Prim.Native.String as Str
use cadder.Base.{
  String, Bool, true, false, ◌||◌, Option, none, some, List, [], ◌∷◌, ◌++◌, if◌then◌else◌, ◌==◌,
  string_eq,
}
use cadder.Caddy.Domains.{DomainSet, set_member, set_of, canonicalize_domain}
use cadder.Caddy.Json.{
  Value, null, bool, number, string, array, object, Items, nil, cons, Fields, end, field,
}

abbrev fields_of : List (String × Value) → Fields
fields_of [] = end
fields_of ((k, v) ∷ fs) = field k v (fields_of fs)

abbrev pub obj : List (String × Value) → Value
obj fs = object (fields_of fs)

abbrev text_items : List String → Items
text_items [] = nil
text_items (s ∷ ss) = cons (string s) (text_items ss)

abbrev pub texts : List String → Value
texts ss = array (text_items ss)

abbrev with_id : String → Bool → Value → Value → Value
with_id namespace true (string s) walked = string (Str.◌++◌ namespace s)
with_id namespace _ v walked = walked

unfoldable mutual
  pub namespace_config_ids : String → Value → Value
  namespace_config_ids namespace (array vs) = array (namespace_items namespace vs)
  namespace_config_ids namespace (object fs) = object (namespace_fields namespace fs)
  namespace_config_ids namespace null = null
  namespace_config_ids namespace (bool b) = bool b
  namespace_config_ids namespace (number n) = number n
  namespace_config_ids namespace (string s) = string s

  pub namespace_items : String → Items → Items
  namespace_items namespace nil = nil
  namespace_items namespace (cons v vs) =
      cons (namespace_config_ids namespace v) (namespace_items namespace vs)

  pub namespace_fields : String → Fields → Fields
  namespace_fields namespace end = end
  namespace_fields namespace (field k v fs) =
      field k (with_id namespace (k == "@id") v (namespace_config_ids namespace v))
        (namespace_fields namespace fs)

-- The host is a text whose canonical form is enabled.
unfoldable pub keeps_host : (String → Option String) → DomainSet → Value → Bool
unfolding canonicalize_domain
keeps_host to_ascii hosts (string s) = set_member (canonicalize_domain to_ascii s) hosts
keeps_host to_ascii hosts _ = false

unfoldable pub retain_hosts : (String → Option String) → DomainSet → Items → Items
unfolding keeps_host
retain_hosts to_ascii hosts nil = nil
retain_hosts to_ascii hosts (cons v vs) =
    let rest = retain_hosts to_ascii hosts vs in
    if keeps_host to_ascii hosts v then cons v rest else rest

unfoldable pub retains_any : (String → Option String) → DomainSet → Items → Bool
unfolding keeps_host
retains_any to_ascii hosts nil = false
retains_any to_ascii hosts (cons v vs) =
    keeps_host to_ascii hosts v || retains_any to_ascii hosts vs

-- The value of a field: the list under "host" is filtered, anything else is walked.
abbrev pub filter_member : (String → Option String) → DomainSet → Bool → Value → Value → Value
filter_member to_ascii hosts true (array vs) walked = array (retain_hosts to_ascii hosts vs)
filter_member to_ascii hosts _ v walked = walked

abbrev pub member_retains : (String → Option String) → DomainSet → Bool → Value → Bool → Bool
member_retains to_ascii hosts true (array vs) walked = retains_any to_ascii hosts vs
member_retains to_ascii hosts _ v walked = walked

unfoldable mutual
  pub filter_hosts : (String → Option String) → DomainSet → Value → Value
  filter_hosts to_ascii hosts (array vs) = array (filter_items to_ascii hosts vs)
  filter_hosts to_ascii hosts (object fs) = object (filter_fields to_ascii hosts fs)
  filter_hosts to_ascii hosts null = null
  filter_hosts to_ascii hosts (bool b) = bool b
  filter_hosts to_ascii hosts (number n) = number n
  filter_hosts to_ascii hosts (string s) = string s

  pub filter_items : (String → Option String) → DomainSet → Items → Items
  filter_items to_ascii hosts nil = nil
  filter_items to_ascii hosts (cons v vs) =
      cons (filter_hosts to_ascii hosts v) (filter_items to_ascii hosts vs)

  pub filter_fields : (String → Option String) → DomainSet → Fields → Fields
  filter_fields to_ascii hosts end = end
  filter_fields to_ascii hosts (field k v fs) =
      field k (filter_member to_ascii hosts (k == "host") v (filter_hosts to_ascii hosts v))
        (filter_fields to_ascii hosts fs)

-- `retained_any` of the same walk.
unfoldable mutual
  pub retained_any : (String → Option String) → DomainSet → Value → Bool
  retained_any to_ascii hosts (array vs) = retained_items to_ascii hosts vs
  retained_any to_ascii hosts (object fs) = retained_fields to_ascii hosts fs
  retained_any to_ascii hosts null = false
  retained_any to_ascii hosts (bool b) = false
  retained_any to_ascii hosts (number n) = false
  retained_any to_ascii hosts (string s) = false

  pub retained_items : (String → Option String) → DomainSet → Items → Bool
  retained_items to_ascii hosts nil = false
  retained_items to_ascii hosts (cons v vs) =
      retained_any to_ascii hosts v || retained_items to_ascii hosts vs

  pub retained_fields : (String → Option String) → DomainSet → Fields → Bool
  retained_fields to_ascii hosts end = false
  retained_fields to_ascii hosts (field k v fs) =
      member_retains to_ascii hosts (k == "host") v (retained_any to_ascii hosts v)
      || retained_fields to_ascii hosts fs

unfoldable pub filter_route_hosts : (String → Option String) → DomainSet → Value → Option Value
unfolding filter_hosts retained_any
filter_route_hosts to_ascii hosts v =
    if retained_any to_ascii hosts v then some (filter_hosts to_ascii hosts v) else none

abbrev pub host_texts : (String → Option String) → Items → List String
host_texts to_ascii nil = []
host_texts to_ascii (cons (string s) vs) = canonicalize_domain to_ascii s ∷ host_texts to_ascii vs
host_texts to_ascii (cons _ vs) = host_texts to_ascii vs

abbrev pub member_hosts : (String → Option String) → Bool → Value → List String
member_hosts to_ascii true (array vs) = host_texts to_ascii vs
member_hosts to_ascii _ v = []

-- The hosts that `collect_hosts` inserts into its set.
unfoldable mutual
  pub hosts_of : (String → Option String) → Value → List String
  hosts_of to_ascii (array vs) = items_hosts to_ascii vs
  hosts_of to_ascii (object fs) = fields_hosts to_ascii fs
  hosts_of to_ascii null = []
  hosts_of to_ascii (bool b) = []
  hosts_of to_ascii (number n) = []
  hosts_of to_ascii (string s) = []

  pub items_hosts : (String → Option String) → Items → List String
  items_hosts to_ascii nil = []
  items_hosts to_ascii (cons v vs) = hosts_of to_ascii v ++ items_hosts to_ascii vs

  pub fields_hosts : (String → Option String) → Fields → List String
  fields_hosts to_ascii end = []
  fields_hosts to_ascii (field k v fs) =
      member_hosts to_ascii (k == "host") v ++ (hosts_of to_ascii v ++ fields_hosts to_ascii fs)

unfoldable pub extract_hosts : (String → Option String) → Value → DomainSet
unfolding hosts_of set_of
extract_hosts to_ascii v = set_of [] (hosts_of to_ascii v)
