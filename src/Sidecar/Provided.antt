-- ===== src/Sidecar/Provided.antt =====
-- When `Resolve` of internal/sidecar/resolve.go gathers an environment: what is asked of the secrets.
use exasol_personal.Common.{
  ℕ, suc, ◌≡◌, ◌↔◌, refl, inl, inr, true, false, Option, none, some, List, [], ◌∷◌, Bytes, All,
  Bool-cases,
}
use exasol_personal.Sidecar.Document.{
  SecretKeyRef, EnvVar, has_byte, value_has_nul, check_source, validate_env, env_value,
}
use exasol_personal.Sidecar.Accepted.{refuse_if-none, then_check-none}
use exasol_personal.Sidecar.Clean.{IsClean, AreClean, expand-IsClean, put-AreClean}
use exasol_personal.Sidecar.Expand.{Values}
use exasol_personal.Sidecar.Resolve.{
  SecretValue, Secrets, secret_of, Found, dropped, given, failed, from_secret, literal_value,
  from_source, resolve_env, Environment, add_value, Result, refused, resolved, add_found, continue,
  resolve_all,
}

abbrev pub IsResolved {ℓ} : {A : Type ℓ} → Result A → Type 0
IsResolved (refused f) = ⊥
IsResolved (resolved a) = Unit {0}

-- The value of the secret is there and has no NUL, or it is not there and optional.
abbrev HasSecret : SecretKeyRef → Option SecretValue → Type 0
HasSecret r none = r.optional ≡ true
HasSecret r (some s) = IsClean s.value

abbrev HasSource : Secrets → Option (Option SecretKeyRef) → Type 0
HasSource secrets none = Unit {0}
HasSource secrets (some none) = Unit {0}
HasSource secrets (some (some r)) = HasSecret r (secret_of secrets r)

abbrev pub IsProvided : Secrets → EnvVar → Type 0
IsProvided secrets v = HasSource secrets v.value_from

-- What `validateEnv` checks of the value and the source.
abbrev HasReference : Option (Option SecretKeyRef) → Type 0
HasReference (some none) = ⊥
HasReference _ = Unit {0}

abbrev pub IsWhole : EnvVar → Type 0
IsWhole v = (value_has_nul v.value ≡ false) × HasReference v.value_from

pub validate_env-IsWhole :
    (names : List Bytes) (i : ℕ) (es : List EnvVar)
    → validate_env names i es ≡ none
    → All IsWhole es
unfolding validate_env
validate_env-IsWhole names i [] h = tt
validate_env-IsWhole names i (e ∷ es) h =
    let (first, later) = then_check-none _ _ h in
    let (second, source) = then_check-none _ _ first in
    let (name_ok, value_ok) = then_check-none _ _ second in
    (
      (refuse_if-none _ (env_value i) value_ok, go e.value e.value_from source),
      validate_env-IsWhole (e.name ∷ names) (suc i) es later,
    )
  where
    go :
        (value : Option Bytes) (source : Option (Option SecretKeyRef))
        → check_source i value source ≡ none
        → HasReference source
    go value none h = tt
    go none (some none) h = cc
    go (some v) (some none) h = cc
    go value (some (some r)) h = tt

-- what the loop makes of a variable
abbrev Accepts : Found → Type 0
Accepts dropped = Unit {0}
Accepts (given value is_sensitive) = IsClean value
Accepts (failed f) = ⊥

literal-IsClean :
    (value : Option Bytes) (values : Values)
    → value_has_nul value ≡ false
    → AreClean values
    → IsClean (literal_value value values)
unfolding has_byte
literal-IsClean none values h vs = refl
literal-IsClean (some v) values h vs = expand-IsClean values v vs h

from_secret-Accepts :
    (r : SecretKeyRef) (o : Option SecretValue) → HasSecret r o ↔ Accepts (from_secret r o)
from_secret-Accepts r (some s) = (λ h. h, λ h. h)
from_secret-Accepts r none = elim (Bool-cases r.optional) [
  | inl e ↦ rw e (λ h. tt, λ h. refl)
  | inr e ↦ rw e (λ h. cc, λ h. absurd h)
]

resolve_env-Accepts :
    (v : EnvVar) (secrets : Secrets) (values : Values)
    → IsWhole v
    → AreClean values
    → IsProvided secrets v ↔ Accepts (resolve_env v secrets values)
unfolding resolve_env
resolve_env-Accepts v secrets values w vs = go v.value v.value_from w.0 w.1
  where
    go :
        (value : Option Bytes) (source : Option (Option SecretKeyRef))
        → value_has_nul value ≡ false
        → HasReference source
        → HasSource secrets source ↔ Accepts (from_source secrets values value source)
    go value none n r = (λ h. literal-IsClean value values n vs, λ h. tt)
    go value (some none) n r = absurd r
    go value (some (some r)) n h = from_secret-Accepts r (secret_of secrets r)

add_found-IsResolved :
    (name : Bytes) (f : Found) (e : Environment) (rest : Environment → Result Environment)
    (P : Type 0)
    → AreClean e.values
    → ((e' : Environment) → AreClean e'.values → P ↔ IsResolved (rest e'))
    → (Accepts f × P) ↔ IsResolved (continue rest (add_found name f e))
unfolding add_found
add_found-IsResolved name dropped e rest P vs ih = (λ h. (ih e vs).0 h.1, λ h. (tt, (ih e vs).1 h))
add_found-IsResolved name (failed f) e rest P vs ih = (λ h. absurd h.0, λ h. absurd h)
add_found-IsResolved name (given value is_sensitive) e rest P vs ih =
    elim (Bool-cases (has_byte 0 value)) [
      | inl bad ↦ rw bad (λ h. cc h.0, λ h. absurd h)
      | inr good ↦
          let both =
            ih (add_value name value is_sensitive e) (put-AreClean name value e.values vs good) in
          rw good (λ h. both.0 h.1, λ h. (refl, both.1 h))
    ]

pub resolve_all-IsResolved :
    (secrets : Secrets) (vs : List EnvVar) (e : Environment)
    → All IsWhole vs
    → AreClean e.values
    → All (IsProvided secrets) vs ↔ IsResolved (resolve_all secrets vs e)
unfolding resolve_all
resolve_all-IsResolved secrets [] e w c = (λ h. tt, λ h. tt)
resolve_all-IsResolved secrets (v ∷ vs) e w c =
    let here = resolve_env-Accepts v secrets e.values w.0 c in
    let all =
      add_found-IsResolved v.name (resolve_env v secrets e.values) e (resolve_all secrets vs)
        (All (IsProvided secrets) vs) c (λ e' c'. resolve_all-IsResolved secrets vs e' w.1 c') in
    (λ h. all.0 (here.0 h.0, h.1), λ h. let (a, p) = all.1 h in (here.1 a, p))
