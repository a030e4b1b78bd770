-- ===== src/Routing/Examples.antt =====
-- A catalogue key with a virtual model of two targets, and a key that is bound to a real model.
use tiller_router.Prelude.{
  String, str_eq, ◌≡◌, refl, Bool, true, false, some, [], ◌∷◌, if◌then◌else◌,
}
use tiller_router.Routing.{
  no_rows, ok, error, RouteModelInfo, RouteTarget, Queries, virtual_kind, real, Resolved,
  resolve_route, route_target_to_resolved, find_model, catalogue_model, real_else_virtual,
  virtual_of, read_targets, with_targets, all_locked, locked_count, single_model, bound_model,
  real_or_virtual, with_target, own_target,
}
use tiller_router.Routing.Permitted.{
  Permitted, resolve_route-Permitted, tries_all, resolve_route-tries_all, BoundTo,
  resolve_route-BoundTo,
}

abbrev route_target : String → Bool → RouteTarget
route_target id locked = record {
  provider_model_id = id;
  provider_id = "p";
  provider_name = "p";
  provider_type = "openai";
  credential = "k";
  upstream_model_id = id;
  available = true;
  locked = locked;
}

abbrev model_info : RouteModelInfo
model_info = record { model_id = "v1"; canonical = "group/v" }

abbrev queries : Queries
queries = record {
  client_key_type = λ client. ok (if str_eq client "one" then "single" else "catalogue");
  get_single_binding = λ client.
      ok (some (record { model_name = "mine"; real_model_id = some "m1"; virtual_model_id = "" }));
  real_model_for_id = λ id. ok (record { model_id = id; canonical = "p/m1" });
  virtual_model_canonical = λ id. ok "group/v";
  permitted_real_model = λ client requested. error no_rows;
  permitted_virtual_model = λ client requested. ok model_info;
  virtual_routing_mode = λ id. ok "ordered_fallback";
  virtual_route_targets = λ id. ok (route_target "m1" true ∷ route_target "m2" false ∷ []);
  real_route_target = λ id. ok (route_target id false);
  is_oauth = λ type. false;
}

abbrev virtual_route : Resolved
virtual_route = record {
  model = record { kind = virtual_kind; id = "v1"; canonical = "group/v"; requested = "group/v" };
  routing_mode = "ordered_fallback";
  candidates =
      route_target_to_resolved queries (route_target "m1" true)
      ∷ route_target_to_resolved queries (route_target "m2" false)
      ∷ [];
}

virtual_resolves : resolve_route queries "c" "group/v" ≡ ok virtual_route
unfolding resolve_route find_model catalogue_model real_else_virtual virtual_of read_targets
    with_targets all_locked locked_count
virtual_resolves = refl

abbrev own_route : Resolved
own_route = record {
  model = record { kind = real; id = "m1"; canonical = "p/m1"; requested = "mine" };
  routing_mode = "";
  candidates =
      own_target (route_target_to_resolved queries (route_target "m1" false))
        (record { kind = real; id = "m1"; canonical = "p/m1"; requested = "mine" })
      ∷ [];
}

own_resolves : resolve_route queries "one" "another" ≡ ok own_route
unfolding resolve_route find_model single_model bound_model real_or_virtual read_targets with_target
own_resolves = refl

resolve_route-Permitted_example : Permitted queries "c" "group/v" virtual_route.model
resolve_route-Permitted_example =
    resolve_route-Permitted queries "c" "group/v" "catalogue" virtual_route refl refl
      virtual_resolves

resolve_route-tries_all_example :
    resolve_route queries "c" "group/v"
    ≡ tries_all queries virtual_route.model "ordered_fallback"
        (route_target "m1" true ∷ route_target "m2" false ∷ [])
unfolding find_model catalogue_model real_else_virtual virtual_of
resolve_route-tries_all_example =
    resolve_route-tries_all queries "c" "group/v" virtual_route.model "ordered_fallback"
      (route_target "m1" true ∷ route_target "m2" false ∷ []) refl refl refl refl

resolve_route-BoundTo_example : BoundTo queries "one" own_route.model
resolve_route-BoundTo_example =
    resolve_route-BoundTo queries "one" "another" own_route refl own_resolves
