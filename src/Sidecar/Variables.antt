-- ===== src/Sidecar/Variables.antt =====
-- The environment that `Resolve` of internal/sidecar/resolve.go gathers passes `validateEnv`.
use mathlib.Core.List.{append_assoc, append-nil}
use exasol_personal.Common.{
  ℕ, suc, ◌≡◌, refl, sym, ap, ◌∙◌, inl, inr, false, none, some, List, [], ◌∷◌, ◌++◌, map, Bytes,
  All, contains, Bool-cases, arith,
}
use exasol_personal.Sidecar.Document.{EnvVar, has_byte, value_has_nul, validate_env}
use exasol_personal.Sidecar.Accepted.{Fresh}
use exasol_personal.Sidecar.Definitions.{IsEnvName}
use exasol_personal.Sidecar.Clean.{AreClean, put-AreClean}
use exasol_personal.Sidecar.Resolve.{
  Secrets, Found, dropped, given, failed, resolve_env, Environment, add_value, Result, refused,
  resolved, add_found, continue, resolve_all,
}

-- A variable with a value and no source, as a process gets it.
pub record IsLiteral (e : EnvVar) : Type 0 where
  pub name : IsEnvName e.name
  pub value : (v : Bytes) × (e.value ≡ some v)
  pub clean : value_has_nul e.value ≡ false
  pub source : e.value_from ≡ none

validate_env_complete :
    (names : List Bytes) (i : ℕ) (es : List EnvVar)
    → All IsLiteral es
    → Fresh names (map (λ e. e.name) es)
    → validate_env names i es ≡ none
unfolding validate_env
validate_env_complete names i [] all f = refl
validate_env_complete names i (e ∷ es) all f =
    let (n0, n1, n2) = all.0.name in
    rw (n0, n1, n2, f.0, all.0.clean, all.0.source)
      (validate_env_complete (e.name ∷ names) (suc i) es all.1 f.1)

Fresh-weaken :
    (names names' xs : List Bytes)
    → ((z : Bytes) → contains names' z ≡ false → contains names z ≡ false)
    → Fresh names' xs
    → Fresh names xs
unfolding contains
Fresh-weaken names names' [] w f = tt
Fresh-weaken names names' (x ∷ xs) w f =
    (w x f.0, Fresh-weaken (x ∷ names) (x ∷ names') xs (λ z h. ground (arith, h, w z)) f.1)

Fresh-cons :
    (names : List Bytes) (x : Bytes) (xs : List Bytes) → Fresh (x ∷ names) xs → Fresh names xs
unfolding contains
Fresh-cons names x xs f = Fresh-weaken names (x ∷ names) xs (λ z h. ground (arith, h)) f

-- What the rest of the loop adds to the environment.
pub record Extends (names : List Bytes) (e e' : Environment) : Type 0 where
  pub added : List EnvVar
  pub env : e'.env ≡ e.env ++ added
  pub literal : All IsLiteral added
  pub fresh : Fresh names (map (λ v. v.name) added)
  pub clean : AreClean e'.values

-- The predicate holds of the result, if there is one.
abbrev pub Holds {ℓ κ} : {A : Type ℓ} → (A → Type κ) → Result A → Type κ
Holds P (refused f) = Unit
Holds P (resolved a) = P a

Holds-map {ℓ κ} :
    {A : Type ℓ} {P Q : A → Type κ} (r : Result A) → ((a : A) → P a → Q a) → Holds P r → Holds Q r
Holds-map (refused f) w h = tt
Holds-map (resolved a) w h = w a h

-- one turn of the loop, and the rest
add_found-Extends :
    (names : List Bytes) (name : Bytes) (f : Found) (e : Environment)
    (rest : Environment → Result Environment)
    → IsEnvName name
    → contains names name ≡ false
    → AreClean e.values
    → ((e' : Environment) → AreClean e'.values → Holds (Extends (name ∷ names) e') (rest e'))
    → Holds (Extends names e) (continue rest (add_found name f e))
unfolding add_found
add_found-Extends names name dropped e rest n new vs ih =
    Holds-map (rest e)
      (λ e' x. record {
        added = x.added;
        env = x.env;
        literal = x.literal;
        fresh = Fresh-cons names name _ x.fresh;
        clean = x.clean;
      })
      (ih e vs)
add_found-Extends names name (failed f) e rest n new vs ih = tt
add_found-Extends names name (given value is_sensitive) e rest n new vs ih =
    elim (Bool-cases (has_byte 0 value)) [
      | inl bad ↦ rw bad tt
      | inr good ↦ rw good (
          Holds-map (rest (add_value name value is_sensitive e))
            (λ e' x. record {
              added = record { name = name; value = some value; value_from = none } ∷ x.added;
              env =
                  x.env
                  ∙ append_assoc e.env
                      (record { name = name; value = some value; value_from = none } ∷ []) x.added;
              literal = (
                record { name = n; value = (value, refl); clean = good; source = refl },
                x.literal,
              );
              fresh = (new, x.fresh);
              clean = x.clean;
            })
            (ih (add_value name value is_sensitive e) (put-AreClean name value e.values vs good)))
    ]

pub resolve_all-Extends :
    (secrets : Secrets) (names : List Bytes) (vs : List EnvVar) (e : Environment)
    → All (λ v. IsEnvName v.name) vs
    → Fresh names (map (λ v. v.name) vs)
    → AreClean e.values
    → Holds (Extends names e) (resolve_all secrets vs e)
unfolding resolve_all
resolve_all-Extends secrets names [] e all f c = record {
  added = [];
  env = sym (append-nil e.env);
  literal = tt;
  fresh = tt;
  clean = c;
}
resolve_all-Extends secrets names (v ∷ vs) e all f c =
    add_found-Extends names v.name (resolve_env v secrets e.values) e (resolve_all secrets vs) all.0
      f.0 c (λ e' c'. resolve_all-Extends secrets (v.name ∷ names) vs e' all.1 f.1 c')

pub Extends-validate_env :
    (e e' : Environment) → e.env ≡ [] → Extends [] e e' → validate_env [] 0 e'.env ≡ none
Extends-validate_env e e' h x =
    ap (validate_env [] 0) (x.env ∙ ap (λ l. l ++ x.added) h)
    ∙ validate_env_complete [] 0 x.added x.literal x.fresh
