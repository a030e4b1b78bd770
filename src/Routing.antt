-- ===== src/Routing.antt =====
-- internal/server/client.go: `resolveRoute`, from a client key and the model that it asks for to the route.
-- The store's queries are arguments; a transaction reads one state, so each is a function. What
-- `HydrateOAuth` does to the credentials afterwards is left out.
mod Permitted
mod Examples
use tiller_router.Prelude.{
  ℕ, zero, suc, ◌==◌, String, str_eq, Bool, true, false, not, ◌&&◌, Option, none, some, List, [],
  ◌∷◌, map, if◌then◌else◌, length, ◌+◌, ltb,
}
use tiller_router.Fallback.{Candidate}
use tiller_router.Proxy.{Target}

-- sql.ErrNoRows, store.ErrSecretsLocked, and any other error
pub data RouteError : Type 0 where
  no_rows secrets_locked database_error : RouteError

pub data Result {ℓ} (A : Type ℓ) : Type ℓ where
  ok : A → Result A
  error : RouteError → Result A

infixl 1 ◌>>=◌
unfoldable pub ◌>>=◌ {ℓ κ} : {A : Type ℓ} {B : Type κ} → Result A → (A → Result B) → Result B
(ok a) >>= f = f a
(error e) >>= f = error e

-- The binding of a key to one model: a real model, or else a virtual one.
pub record Binding : Type 0 where
  pub model_name : String
  pub real_model_id : Option String
  pub virtual_model_id : String

pub record RouteModelInfo : Type 0 where
  pub model_id : String
  pub canonical : String

pub record RouteTarget : Type 0 where
  pub provider_model_id : String
  pub provider_id : String
  pub provider_name : String
  pub provider_type : String
  pub credential : String
  pub upstream_model_id : String
  pub available : Bool
  pub locked : Bool

-- The queries of `store.Scope` for one account, and whether `providers.Lookup` finds OAuth for a type.
pub record Queries : Type 0 where
  pub client_key_type : String → Result String
  pub get_single_binding : String → Result (Option Binding)
  pub real_model_for_id : String → Result RouteModelInfo
  pub virtual_model_canonical : String → Result String
  pub permitted_real_model : String → String → Result RouteModelInfo
  pub permitted_virtual_model : String → String → Result RouteModelInfo
  pub virtual_routing_mode : String → Result String
  pub virtual_route_targets : String → Result (List RouteTarget)
  pub real_route_target : String → Result RouteTarget
  pub is_oauth : String → Bool

-- RouteKind
pub data RouteKind : Type 0 where
  real virtual_kind : RouteKind

-- The model that a request is for, before its targets are read: the kind, RouteModelID, RouteModel, and the
-- name that the client knows it by.
pub record Model : Type 0 where
  pub kind : RouteKind
  pub id : String
  pub canonical : String
  pub requested : String

pub record Resolved : Type 0 where
  pub model : Model
  pub routing_mode : String
  pub candidates : List Target

unfoldable pub route_target_to_resolved : Queries → RouteTarget → Target
route_target_to_resolved q t = record {
  candidate = record {
    provider_model_id = t.provider_model_id;
    provider_name = t.provider_name;
    upstream_model_id = t.upstream_model_id;
  };
  provider_id = t.provider_id;
  provider_type = t.provider_type;
  credential = t.credential;
  oauth = q.is_oauth t.provider_type;
  available = t.available;
}

unfoldable pub real_or_virtual : Queries → Binding → Option String → Result Model
unfolding ◌>>=◌
real_or_virtual q binding (some id) = q.real_model_for_id id >>= λ (info : RouteModelInfo).
    ok (record { kind = real; id = id; canonical = info.canonical; requested = binding.model_name })
real_or_virtual q binding none =
    q.virtual_model_canonical binding.virtual_model_id >>= λ (canonical : String). ok (record {
      kind = virtual_kind;
      id = binding.virtual_model_id;
      canonical = canonical;
      requested = binding.model_name;
    })

unfoldable pub bound_model : Queries → Option Binding → Result Model
unfolding real_or_virtual
bound_model q none = error no_rows
bound_model q (some binding) = real_or_virtual q binding binding.real_model_id

-- A key of one model.
unfoldable pub single_model : Queries → String → Result Model
unfolding ◌>>=◌ bound_model
single_model q client = q.get_single_binding client >>= bound_model q

unfoldable pub virtual_of : String → RouteModelInfo → Result Model
virtual_of requested info = ok (record {
  kind = virtual_kind;
  id = info.model_id;
  canonical = info.canonical;
  requested = requested;
})

unfoldable pub real_else_virtual : Queries → String → String → Result RouteModelInfo → Result Model
unfolding ◌>>=◌ virtual_of
real_else_virtual q client requested (ok info) =
    ok (record {
      kind = real;
      id = info.model_id;
      canonical = info.canonical;
      requested = requested;
    })
real_else_virtual q client requested (error no_rows) =
    q.permitted_virtual_model client requested >>= virtual_of requested
real_else_virtual q client requested (error secrets_locked) = error secrets_locked
real_else_virtual q client requested (error database_error) = error database_error

-- A key of a catalogue.
unfoldable pub catalogue_model : Queries → String → String → Result Model
unfolding real_else_virtual
catalogue_model q client requested =
    real_else_virtual q client requested (q.permitted_real_model client requested)

unfoldable pub find_model : Queries → String → String → Result Model
unfolding ◌>>=◌ single_model catalogue_model
find_model q client requested = q.client_key_type client >>= λ (key_type : String).
    if str_eq key_type "single" then single_model q client else catalogue_model q client requested

unfoldable pub locked_count : List RouteTarget → ℕ
locked_count [] = 0
locked_count (t ∷ ts) = if t.locked then locked_count ts + 1 else locked_count ts

-- len(route.Targets) > 0 && locked == len(route.Targets)
unfoldable pub all_locked : List RouteTarget → Bool
unfolding locked_count
all_locked ts = ltb 0 (length ts) && locked_count ts == length ts

unfoldable pub with_targets : Queries → Model → String → List RouteTarget → Result Resolved
unfolding all_locked route_target_to_resolved
with_targets q m mode ts =
    if all_locked ts
    then error secrets_locked
    else ok (record {
      model = m;
      routing_mode = mode;
      candidates = map (route_target_to_resolved q) ts;
    })

-- The target of a real model is known by the model's id.
unfoldable pub own_target : Target → Model → Target
own_target t m = record t { candidate = record t.candidate { provider_model_id = m.id } }

unfoldable pub with_target : Queries → Model → RouteTarget → Result Resolved
unfolding route_target_to_resolved own_target
with_target q m t =
    if t.locked
    then error secrets_locked
    else ok (record {
      model = m;
      routing_mode = "";
      candidates = own_target (route_target_to_resolved q t) m ∷ [];
    })

unfoldable pub read_targets : Queries → Model → RouteKind → Result Resolved
unfolding ◌>>=◌ with_targets with_target
read_targets q m virtual_kind = q.virtual_routing_mode m.id >>= λ (mode : String).
    q.virtual_route_targets m.id >>= with_targets q m mode
read_targets q m real = q.real_route_target m.id >>= with_target q m

unfoldable pub resolve_route : Queries → String → String → Result Resolved
unfolding ◌>>=◌ find_model read_targets
resolve_route q client requested =
    find_model q client requested >>= λ (m : Model). read_targets q m m.kind
