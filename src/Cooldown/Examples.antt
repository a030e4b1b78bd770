-- ===== src/Cooldown/Examples.antt =====
-- Cooling targets of one account, and the theorems of the cooldown store at them.
use tiller_router.Prelude.{
  ℕ, String, str_eq, ◌≡◌, refl, eq_iff, true, false, none, some, List, [], ◌∷◌, arith, Bool-cases,
  inl, inr,
}
use tiller_router.Prelude.Text.{nul_free, has_prefix}
use tiller_router.Prelude.Table.{get, put, keep}
use tiller_router.Tenant.{tenant_key, tenant_prefix}
use tiller_router.Cooldown.{
  CooldownEntry, CooldownStore, new_cooldown_store, cooled, set, sooner, status_by_name,
}
use tiller_router.Cooldown.WellFormed.{WellFormed, WellFormed-new, WellFormed-set}
use tiller_router.Cooldown.Status.{Candidate, status_by_name-earliest, status_by_name_order}
use tiller_router.Cooldown.History.{
  Call, opened, cleared, removed, released, pruned, run, expect, is_open, cooled-run,
}

abbrev entry : String → ℕ → ℕ → CooldownEntry
entry id started until = record {
  provider_model_id = id;
  until = until;
  started_at = started;
  provider = "zai";
  model = "glm";
  origin_request_log_id = "r1";
  origin_error_class = "http_503";
  origin_error_message = "busy";
}

abbrev first : CooldownEntry
first = entry "m1" 10 100

abbrev second : CooldownEntry
second = entry "m2" 20 50

abbrev one : CooldownStore
one = set new_cooldown_store "acc" first

abbrev two : CooldownStore
two = set one "acc" second

one-WellFormed : WellFormed one
unfolding nul_free
one-WellFormed = WellFormed-set new_cooldown_store "acc" first refl WellFormed-new

two-WellFormed : WellFormed two
unfolding nul_free
two-WellFormed = WellFormed-set one "acc" second refl one-WellFormed

-- A shorter window leaves the longer one open.
cooled_longest : cooled (set two "acc" (entry "m1" 30 40)) "acc" "m1" 60 ≡ true
unfolding cooled set new_cooldown_store get put keep tenant_key
cooled_longest = refl

two_status : status_by_name two "acc" "zai" "glm" 30 ≡ some second
unfolding status_by_name set new_cooldown_store get put keep tenant_key has_prefix tenant_prefix
two_status = refl

status_by_name-earliest_example :
    ((key : String) × Candidate two "acc" "zai" "glm" 30 key second)
    × ((key : String) (x : CooldownEntry)
        → Candidate two "acc" "zai" "glm" 30 key x
        → sooner x second ≡ false)
status_by_name-earliest_example =
    status_by_name-earliest two "acc" "zai" "glm" 30 second two-WellFormed two_status

-- The same map, filled the other way round.
abbrev two' : CooldownStore
two' = set (set new_cooldown_store "acc" second) "acc" first

two'-WellFormed : WellFormed two'
unfolding nul_free
two'-WellFormed =
    WellFormed-set (set new_cooldown_store "acc" second) "acc" first refl
      (WellFormed-set new_cooldown_store "acc" second refl WellFormed-new)

same_map : (key : String) → get two.until key ≡ get two'.until key
unfolding set new_cooldown_store get put keep tenant_key
same_map key = elim (Bool-cases (str_eq "acc\0m1" key)) [
  | inl is_first ↦ rw (← (eq_iff "acc\0m1" key).0 is_first)
  | inr not_first ↦ rw not_first
]

status_by_name_order_example :
    status_by_name two "acc" "zai" "glm" 30 ≡ status_by_name two' "acc" "zai" "glm" 30
unfolding nul_free
status_by_name_order_example =
    status_by_name_order two two' "acc" "zai" "glm" 30 refl two-WellFormed two'-WellFormed same_map

two_m1 : get two.until (tenant_key "acc" "m1") ≡ some first
unfolding set new_cooldown_store get put keep tenant_key
two_m1 = refl

abbrev plain : ℕ → String
plain n = "at"

abbrev calls : List Call
calls =
    opened "acc" first
    ∷ opened "acc" second
    ∷ removed "acc" "m1"
    ∷ opened "acc" (entry "m1" 60 90)
    ∷ cleared "other"
    ∷ pruned 70
    ∷ released "acc" "zai" "glm"
    ∷ opened "acc" (entry "m1" 75 90)
    ∷ []

cooled-run_example :
    cooled (run new_cooldown_store calls) "acc" "m1" 80 ≡ is_open (expect "acc" "m1" 80 none calls)
unfolding nul_free
cooled-run_example = cooled-run "acc" "m1" 80 calls refl (
  (refl, omega arith),
  (
    (refl, omega arith),
    (refl, ((refl, omega arith), (refl, (omega arith, (refl, ((refl, omega arith), tt)))))),
  ),
)

abbrev span : ℕ → ℕ → String
span a b = "s"
