-- ===== src/Base/Results.antt =====
-- `Result<T, E>`, and the first check of a list that fails.
use mathlib.Core.Path.{◌≡◌, refl}
use mathlib.Core.Bool.{Bool, true, false}
use mathlib.Core.List.{List, [], ◌∷◌}
use larmindon_core.Base.Tests.{if◌then◌else◌}
use larmindon_core.Base.Lists.{All}

pub data Result {ℓ κ} (A : Type ℓ) (E : Type κ) : Type (ℓ ⊔ κ) where
  ok : A → Result A E
  err : E → Result A E

-- Checks in order, each with the test that makes it fail and its error.
abbrev pub first_failure {κ} : {E : Type κ} → List (Bool × E) → Result {0, κ} Unit E
first_failure [] = ok tt
first_failure ((failed, e) ∷ checks) =
    let rest = first_failure checks in if failed then err e else rest

abbrev pub AllPass {κ} : {E : Type κ} → List (Bool × E) → Type 0
AllPass checks = All (λ c. c.0 ≡ false) checks

pub first_failure-pass {κ} :
    {E : Type κ} (checks : List (Bool × E)) → AllPass checks → first_failure checks ≡ ok tt
first_failure-pass [] h = refl
first_failure-pass ((false, e) ∷ checks) h = first_failure-pass checks h.1
first_failure-pass ((true, e) ∷ checks) h = cc

pub first_failure-AllPass {κ} :
    {E : Type κ} (checks : List (Bool × E)) → first_failure checks ≡ ok tt → AllPass checks
first_failure-AllPass [] h = tt
first_failure-AllPass ((false, e) ∷ checks) h = (refl, first_failure-AllPass checks h)
first_failure-AllPass ((true, e) ∷ checks) h = cc

-- `?`.
abbrev pub then_ok {ℓ κ μ} :
    {A : Type ℓ} {B : Type κ} {E : Type μ} → Result A E → (A → Result B E) → Result B E
then_ok (ok a) f = f a
then_ok (err e) f = err e

abbrev pub map_err {ℓ κ μ} :
    {A : Type ℓ} {E : Type κ} {D : Type μ} → (E → D) → Result A E → Result A D
map_err f (ok a) = ok a
map_err f (err e) = err (f e)
