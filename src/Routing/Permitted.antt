-- ===== src/Routing/Permitted.antt =====
-- A route is resolved for permitted models only, and only if a credential can be read.
use tiller_router.Prelude.{
  if◌then◌else◌, ltb, ◌&&◌, ◌≤◌, String, str_eq, eq_iff, ◌≡◌, ◌⊎◌, inl, inr, refl, Bool, false, not,
  ◌||◌, Option, none, some, List, [], ◌∷◌, map, ◌==◌, length, arith,
}
use mathlib.Core.Path.{sym, subst, ap}
use tiller_router.Routing.{
  no_rows, secrets_locked, database_error, Result, ok, error, ◌>>=◌, Binding, RouteModelInfo,
  RouteTarget, Queries, RouteKind, real, virtual_kind, Model, Resolved, route_target_to_resolved,
  real_or_virtual, bound_model, single_model, virtual_of, real_else_virtual, catalogue_model,
  find_model, locked_count, all_locked, with_targets, with_target, read_targets, resolve_route,
}

bind-inv :
    {A : Type 0} {B : Type 0} (m : Result A) (f : A → Result B) (b : B)
    → (m >>= f) ≡ ok b
    → (a : A) × (m ≡ ok a) × (f a ≡ ok b)
unfolding ◌>>=◌
bind-inv (ok a) f b h = (a, refl, h)
bind-inv (error e) f b h = absurd (cc)

-- What the key of a catalogue may resolve to: a real model that it is permitted, or, where it is permitted no
-- real model of that name, a virtual one.
abbrev pub Permitted : Queries → String → String → Model → Type 0
Permitted q client requested m =
    (m.requested ≡ requested)
    × ((info : RouteModelInfo) × (m.id ≡ info.model_id)
        × (m.canonical ≡ info.canonical)
        × ((m.kind ≡ real × (q.permitted_real_model client requested ≡ ok info))
            ⊎ (m.kind ≡ virtual_kind
                × (q.permitted_real_model client requested ≡ error no_rows)
                × (q.permitted_virtual_model client requested ≡ ok info))))

real_else_virtual-Permitted :
    (q : Queries) (client requested : String) (found : Result RouteModelInfo) (m : Model)
    → q.permitted_real_model client requested ≡ found
    → real_else_virtual q client requested found ≡ ok m
    → Permitted q client requested m
unfolding real_else_virtual virtual_of
real_else_virtual-Permitted q client requested (ok info) m e h =
    (ground arith, (info, ground arith, ground arith, inl (ground arith, e)))
real_else_virtual-Permitted q client requested (error no_rows) m e h =
    let (info, f, g) =
      bind-inv (q.permitted_virtual_model client requested) (virtual_of requested) m h in
    (ground (arith, g), (info, ground (arith, g), ground (arith, g), inr (ground (arith, g), e, f)))
real_else_virtual-Permitted q client requested (error secrets_locked) m e h = absurd (cc)
real_else_virtual-Permitted q client requested (error database_error) m e h = absurd (cc)

find_model-Permitted :
    (q : Queries) (client requested type : String) (m : Model)
    → q.client_key_type client ≡ ok type
    → str_eq type "single" ≡ false
    → find_model q client requested ≡ ok m
    → Permitted q client requested m
unfolding find_model catalogue_model
find_model-Permitted q client requested type m k s h =
    let (type', e, g) = bind-inv (q.client_key_type client) _ m h in
    real_else_virtual-Permitted q client requested (q.permitted_real_model client requested) m refl
      (ground (arith, e, k, s, g))

with_targets-model :
    (q : Queries) (m : Model) (mode : String) (ts : List RouteTarget) (r : Resolved)
    → with_targets q m mode ts ≡ ok r
    → r.model ≡ m
unfolding with_targets
with_targets-model q m mode ts r h = ground arith

with_target-model :
    (q : Queries) (m : Model) (t : RouteTarget) (r : Resolved)
    → with_target q m t ≡ ok r
    → r.model ≡ m
unfolding with_target
with_target-model q m t r h = ground arith

read_targets-model :
    (q : Queries) (m : Model) (kind : RouteKind) (r : Resolved)
    → read_targets q m kind ≡ ok r
    → r.model ≡ m
unfolding read_targets
read_targets-model q m virtual_kind r h =
    let (mode, e, g) = bind-inv (q.virtual_routing_mode m.id) _ r h in
    let (ts, f, k) = bind-inv (q.virtual_route_targets m.id) (with_targets q m mode) r g in
    with_targets-model q m mode ts r k
read_targets-model q m real r h =
    let (t, e, g) = bind-inv (q.real_route_target m.id) (with_target q m) r h in
    with_target-model q m t r g

-- For a key of a catalogue: a request that resolves is for the model that it names, and this is a real model
-- that the key is permitted, or, where the key is permitted no real model of that name, a virtual model
-- that it is permitted.
pub resolve_route-Permitted :
    (q : Queries) (client requested type : String) (r : Resolved)
    → q.client_key_type client ≡ ok type
    → str_eq type "single" ≡ false
    → resolve_route q client requested ≡ ok r
    → Permitted q client requested r.model
unfolding resolve_route
resolve_route-Permitted q client requested type r k s h =
    let (m, e, g) = bind-inv (find_model q client requested) _ r h in
    subst (Permitted q client requested) (sym (read_targets-model q m m.kind r g))
      (find_model-Permitted q client requested type m k s e)

-- Whether one of the credentials can be read.
unfoldable pub any_unlocked : List RouteTarget → Bool
any_unlocked [] = false
any_unlocked (t ∷ ts) = not t.locked || any_unlocked ts

locked_count-le : (ts : List RouteTarget) → locked_count ts ≤ length ts
unfolding locked_count
locked_count-le [] = omega arith
locked_count-le (t ∷ ts) = ground (arith, locked_count-le ts)

all_locked-any : (ts : List RouteTarget) → (locked_count ts == length ts) ≡ not (any_unlocked ts)
unfolding locked_count any_unlocked
all_locked-any [] = ground arith
all_locked-any (t ∷ ts) = ground (arith, all_locked-any ts, locked_count-le ts)

-- All the targets of a virtual model, unless it has some and no credential can be read.
abbrev pub tries_all : Queries → Model → String → List RouteTarget → Result Resolved
tries_all q m mode ts =
    if ltb 0 (length ts) && not (any_unlocked ts)
    then error secrets_locked
    else ok (record {
      model = m;
      routing_mode = mode;
      candidates = map (route_target_to_resolved q) ts;
    })

with_targets-tries_all :
    (q : Queries) (m : Model) (mode : String) (ts : List RouteTarget)
    → with_targets q m mode ts ≡ tries_all q m mode ts
unfolding with_targets all_locked
with_targets-tries_all q m mode ts =
    ap
      (λ (b : Bool).
        if ltb 0 (length ts) && b
        then error secrets_locked
        else ok (record {
          model = m;
          routing_mode = mode;
          candidates = map (route_target_to_resolved q) ts;
        }))
      (all_locked-any ts)

read_targets-tries_all :
    (q : Queries) (m : Model) (kind : RouteKind) (mode : String) (ts : List RouteTarget)
    → kind ≡ virtual_kind
    → q.virtual_routing_mode m.id ≡ ok mode
    → q.virtual_route_targets m.id ≡ ok ts
    → read_targets q m kind ≡ tries_all q m mode ts
unfolding read_targets ◌>>=◌
read_targets-tries_all q m virtual_kind mode ts v e f =
    rw e (rw f (with_targets-tries_all q m mode ts))
read_targets-tries_all q m real mode ts v e f = absurd (cc)

-- A request for a virtual model whose routing mode and targets can be read resolves to all these targets, in
-- the order of the query; it is refused, as locked, exactly if there is a target and of none the credential
-- can be read.
pub resolve_route-tries_all :
    (q : Queries) (client requested : String) (m : Model) (mode : String) (ts : List RouteTarget)
    → find_model q client requested ≡ ok m
    → m.kind ≡ virtual_kind
    → q.virtual_routing_mode m.id ≡ ok mode
    → q.virtual_route_targets m.id ≡ ok ts
    → resolve_route q client requested ≡ tries_all q m mode ts
unfolding resolve_route ◌>>=◌
resolve_route-tries_all q client requested m mode ts h v e f =
    rw h (read_targets-tries_all q m m.kind mode ts v e f)

-- The model that a key is bound to, as its binding has a real model's id or not: its kind, its id, the
-- canonical name that the store gives for this id, and the name that the binding gives.
abbrev pub IsBound : Queries → Binding → Option String → Model → Type 0
IsBound q binding (some id) m =
    (info : RouteModelInfo) × (q.real_model_for_id id ≡ ok info)
    × (m ≡ record {
      kind = real;
      id = id;
      canonical = info.canonical;
      requested = binding.model_name;
    })
IsBound q binding none m =
    (canonical : String) × (q.virtual_model_canonical binding.virtual_model_id ≡ ok canonical)
    × (m ≡ record {
      kind = virtual_kind;
      id = binding.virtual_model_id;
      canonical = canonical;
      requested = binding.model_name;
    })

abbrev pub BoundTo : Queries → String → Model → Type 0
BoundTo q client m =
    (binding : Binding) × (q.get_single_binding client ≡ ok (some binding))
    × IsBound q binding binding.real_model_id m

real_or_virtual-IsBound :
    (q : Queries) (binding : Binding) (id : Option String) (m : Model)
    → real_or_virtual q binding id ≡ ok m
    → IsBound q binding id m
unfolding real_or_virtual
real_or_virtual-IsBound q binding (some id) m h =
    let (info, e, g) = bind-inv (q.real_model_for_id id) _ m h in (info, e, ground (arith, g))
real_or_virtual-IsBound q binding none m h =
    let (canonical, e, g) = bind-inv (q.virtual_model_canonical binding.virtual_model_id) _ m h in
    (canonical, e, ground (arith, g))

bound_model-BoundTo :
    (q : Queries) (client : String) (binding : Option Binding) (m : Model)
    → q.get_single_binding client ≡ ok binding
    → bound_model q binding ≡ ok m
    → BoundTo q client m
unfolding bound_model
bound_model-BoundTo q client none m e h = absurd (cc)
bound_model-BoundTo q client (some binding) m e h =
    (binding, e, real_or_virtual-IsBound q binding binding.real_model_id m h)

-- For a key of one model: a request that resolves is for the model that the key is bound to, whatever model
-- the request names: the real model if the binding has one, else the virtual one, with its canonical name
-- and under the name of the binding.
pub resolve_route-BoundTo :
    (q : Queries) (client requested : String) (r : Resolved)
    → q.client_key_type client ≡ ok "single"
    → resolve_route q client requested ≡ ok r
    → BoundTo q client r.model
unfolding resolve_route find_model single_model
resolve_route-BoundTo q client requested r k h =
    let (m, e, g) = bind-inv (find_model q client requested) _ r h in
    let (type, f, l) = bind-inv (q.client_key_type client) _ m e in
    let single : single_model q client ≡ ok m = ground (arith, f, k, l, eq_iff type "single") in
    let (binding, b, n) = bind-inv (q.get_single_binding client) (bound_model q) m single in
    subst (BoundTo q client) (sym (read_targets-model q m m.kind r g))
      (bound_model-BoundTo q client binding m b n)
