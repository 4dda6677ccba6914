-- ===== src/Go/Exec.antt =====
-- Functions that return `(value, error)` or `error`, over a state that they may change.
use tektoncd_pruner.Prelude.{String, ℤ}

-- The reason of an error status of the Kubernetes API, those that the source tells apart.
pub data StatusReason : Type 0 where
  not_found internal_error server_timeout service_unavailable timeout invalid : StatusReason
  bad_request forbidden unauthorized : StatusReason
  other_reason : String → StatusReason

-- An error of the API client, a requeue request of the controller runtime
-- (`controller.NewRequeueAfter`), `fmt.Errorf` without and with `%w`, and a nil dereference, which
-- would end the process.
pub data Error : Type 0 where
  api : StatusReason → Error
  requeue_after : ℤ → Error
  errorf : String → Error
  wrap : String → Error → Error
  nil_dereference : Error

pub data Result {ℓ} (A : Type ℓ) : Type ℓ where
  ok : A → Result A
  err : Error → Result A

abbrev pub Exec {ℓ κ} : Type ℓ → Type κ → Type (ℓ ⊔ κ)
Exec W A = W → Result A × W

module _ {ℓ κ} {W : Type ℓ} {A : Type κ} where
  abbrev pub pure : A → Exec W A
  pure a w = (ok a, w)

  abbrev pub raise : Error → Exec W A
  raise e w = (err e, w)

module _ {ℓ κ ρ} {W : Type ℓ} {A : Type κ} {B : Type ρ} where
  abbrev pub continue : (A → Exec W B) → Result A × W → Result B × W
  continue f (ok a, w) = f a w
  continue f (err e, w) = (err e, w)

  -- `a, err := m(); if err != nil { return err }; f(a)`
  infixl 10 ◌>>=◌ ◌>>◌
  abbrev pub ◌>>=◌ : Exec W A → (A → Exec W B) → Exec W B
  ◌>>=◌ m f w = continue f (m w)

  abbrev pub ◌>>◌ : Exec W A → Exec W B → Exec W B
  ◌>>◌ m n w = continue (λ _. n) (m w)

  -- what follows a call whose error the code handles
  abbrev pub handle : (Error → Exec W B) → (A → Exec W B) → Result A × W → Result B × W
  handle on_error on_value (err e, w) = on_error e w
  handle on_error on_value (ok a, w) = on_value a w

abbrev pub map_error {ℓ} : {A : Type ℓ} → (Error → Error) → Result A → Result A
map_error f (ok a) = ok a
map_error f (err e) = err (f e)
