-- ===== src/Proxy/Rules.antt =====
-- The rules for the loop over the candidates: what holds of every step of a turn holds of the loop.
use tiller_router.Prelude.{◌≡◌, refl, Bool, true, false, if◌then◌else◌}
use tiller_router.Proxy.{Target, Answer, Run, Reply, Step, next, again, stop, select}
use tiller_router.Proxy.Loop.{Outcome, chosen, replied, proceed}

pub proceed-rule :
    (Q : Step → Type 0) (P : Outcome → Type 0) (go_on retry : Run → Outcome) (t : Target)
    (step : Step)
    → Q step
    → ((r : Run) → Q (next r) → P (go_on r))
    → ((r : Run) → Q (again r) → P (retry r))
    → ((r : Run) (reply : Reply) → Q (stop r reply) → P (replied r reply))
    → ((r : Run) (a : Answer) → Q (select r a) → P (chosen r t a))
    → P (proceed go_on retry t step)
unfolding proceed
proceed-rule Q P go_on retry t (next r) q n a s c = n r q
proceed-rule Q P go_on retry t (again r) q n a s c = a r q
proceed-rule Q P go_on retry t (stop r reply) q n a s c = s r reply q
proceed-rule Q P go_on retry t (select r answer) q n a s c = c r answer q

pub if-rule :
    (P : Outcome → Type 0) (b : Bool) (x y : Outcome)
    → (b ≡ true → P x)
    → (b ≡ false → P y)
    → P (if b then x else y)
if-rule P true x y p q = p refl
if-rule P false x y p q = q refl

pub step-rule :
    (P : Step → Type 0) (b : Bool) (x y : Step)
    → (b ≡ true → P x)
    → (b ≡ false → P y)
    → P (if b then x else y)
step-rule P true x y p q = p refl
step-rule P false x y p q = q refl
