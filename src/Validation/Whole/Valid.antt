-- ===== src/Validation/Whole/Valid.antt =====
-- What a validated configuration guarantees to the rest of the program.
use trace_gate.Base.{
  ℕ, zero, suc, ◌<◌, false, some, List, [], ◌∷◌, map, ok, is_empty, ◌≡◌, ◌≢◌, refl, ap, sym, ◌∙◌,
  arith, All, get_elem?, subst,
}
use trace_gate.Core.Config.{AppConfig, Route}
use trace_gate.Validation.Raw.{Env, RawConfig, RouteConfig}
use trace_gate.Validation.Checks.{validate_mode, validate_server_tls, validate_admin}
use trace_gate.Validation.Storage.{validate_storage}
use trace_gate.Validation.Storage.Bounds.{StorageIsValid, validate_storage_sound}
use trace_gate.Validation.Routes.{validate_routes}
use trace_gate.Validation.Routes.Bounds.{RouteIsValid, validate_routes_sound, Fresh-distinct, ids}
use trace_gate.Validation.Plugins.{validate_plugins}
use trace_gate.Validation.Plugins.Bounds.{PluginIsValid, validate_plugins_sound}
use trace_gate.Validation.Whole.{validate, route_ids}

module _ (env : Env) (raw : RawConfig) (c : AppConfig) (h : validate env raw ≡ ok c) where
  pub passed_mode : validate_mode raw.server.mode ≡ ok c.mode
  unfolding validate
  passed_mode = ground arith

  pub passed_tls : validate_server_tls env raw.server.tls c.mode ≡ ok c.server_tls
  unfolding validate
  passed_tls = ground arith

  pub passed_admin : validate_admin env raw.admin c.admin_listen c.mode ≡ ok c.admin
  unfolding validate
  passed_admin = ground arith

  passed_storage : validate_storage env raw.storage c.mode ≡ ok c.storage
  unfolding validate
  passed_storage = ground arith

  passed_some : is_empty raw.routes ≡ false
  unfolding validate
  passed_some = ground arith

  pub passed_routes :
      validate_routes env c.mode c.admin_listen c.storage [] raw.routes ≡ ok c.routes
  unfolding validate
  passed_routes = ground arith

  passed_plugins : validate_plugins (route_ids raw.routes) c.mode raw.plugins ≡ ok c.plugins
  unfolding validate
  passed_plugins = ground arith

pub record ConfigIsValid (c : AppConfig) : Type 0 where
  pub some_route : is_empty c.routes ≡ false
  pub routes : All (RouteIsValid c.storage) c.routes
  pub distinct_ids :
      (i j : ℕ) (r s : Route)
      → i < j
      → get_elem? c.routes i ≡ some r
      → get_elem? c.routes j ≡ some s
      → r.id ≢ s.id
  pub storage : StorageIsValid c.storage
  pub plugins : All (PluginIsValid (ids c.routes)) c.plugins

is_empty-map : {A B : Type 0} (f : A → B) (xs : List A) → is_empty (map f xs) ≡ is_empty xs
is_empty-map f [] = refl
is_empty-map f (x ∷ xs) = refl

get_elem?-ids :
    (rs : List Route) (i : ℕ) (r : Route)
    → get_elem? rs i ≡ some r
    → get_elem? (ids rs) i ≡ some r.id
get_elem?-ids [] i r e = cc
get_elem?-ids (x ∷ rs) zero r e = cc
get_elem?-ids (x ∷ rs) (suc i) r e = get_elem?-ids rs i r e

-- Every configuration that validation accepts has at least one route; its routes have limits within
-- the documented ranges, a host, an upstream, a rooted prefix, and pairwise different ids; its
-- storage limits are in range; its plugins are in range and name only configured routes.
pub validate-ConfigIsValid :
    (env : Env) (raw : RawConfig) (c : AppConfig) → validate env raw ≡ ok c → ConfigIsValid c
validate-ConfigIsValid env raw c h =
    let (valid, same, fresh) =
      validate_routes_sound env c.mode c.admin_listen c.storage [] raw.routes c.routes
        (passed_routes env raw c h) in
    record {
      some_route =
          sym (is_empty-map (λ (r : Route). r.id) c.routes)
          ∙ ap is_empty same
          ∙ is_empty-map (λ (r : RouteConfig). r.id) raw.routes
          ∙ passed_some env raw c h;
      routes = valid;
      distinct_ids = λ i j r s below e e'.
          Fresh-distinct [] (ids c.routes) r.id s.id i j fresh below (get_elem?-ids c.routes i r e)
            (get_elem?-ids c.routes j s e');
      storage =
          validate_storage_sound env raw.storage c.mode c.storage (passed_storage env raw c h);
      plugins =
          subst (λ t. All (PluginIsValid t) c.plugins) (sym same)
            (validate_plugins_sound (route_ids raw.routes) c.mode raw.plugins c.plugins
              (passed_plugins env raw c h));
    }
