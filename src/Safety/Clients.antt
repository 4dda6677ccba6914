-- ===== src/Safety/Clients.antt =====
-- The resource functions of both reconcilers keep what the API client promises.
use mathlib.Core.List.{map}
use tektoncd_pruner.Prelude.{
  String, Bool, true, List, [], ◌∷◌, ◌≡◌, refl, sym, ap, ◌∙◌, subst, All, arith,
}
use tektoncd_pruner.Go.Exec.{Exec, Result, ok, err, Error, handle}
use tektoncd_pruner.Kube.Object.{meta, Object}
use tektoncd_pruner.Kube.Api.{Patch, RunClient}
use tektoncd_pruner.World.{World, call}
use tektoncd_pruner.Safety.View.{
  Invariant, Spares, Spares-refl, IsSafeObject, IsRunKeeper, IsRunLister, handle-Spares,
}

module _ {S : Type 0} (inv : Invariant S) where
  -- What the API server promises of the runs of one kind. Its calls may contain what others do to the
  -- cluster meanwhile; all the same they keep the invariant, a deletion that of a safe run, and what
  -- is read as completed in an allowed namespace is safe. A listing of an allowed namespace has runs
  -- of allowed namespaces only.
  pub record IsRunApi {Run : Type 0} (kind : String) (into : Run → Object)
      (is_completed : Object → Bool) (client : RunClient S Run) : Type 0 where
    pub getting :
        (namespace name : String) (w : World S)
        → Spares inv w (record w { cluster = (client.get namespace name w.cluster).1 })
    pub got :
        (namespace name : String) (w : World S) {r : Run} {s : S}
        → inv.allows namespace
        → inv.holds w
        → client.get namespace name w.cluster ≡ (ok r, s)
        → is_completed (into r) ≡ true
        → inv.safe kind namespace name
    pub listing :
        (namespace selector : String) (w : World S)
        → Spares inv w (record w { cluster = (client.list namespace selector w.cluster).1 })
    pub listed :
        (namespace selector : String) (w : World S) {rs : List Run} {s : S}
        → inv.allows namespace
        → inv.holds w
        → client.list namespace selector w.cluster ≡ (ok rs, s)
        → All (λ r. is_completed (into r) ≡ true → IsSafeObject inv kind (into r)) rs
    pub inside :
        (namespace selector : String) (s : S) {rs : List Run} {s' : S}
        → inv.allows namespace
        → client.list namespace selector s ≡ (ok rs, s')
        → All (λ r. inv.allows (meta (into r)).namespace) rs
    pub read_inside :
        (namespace name : String) (s : S) {r : Run} {s' : S}
        → inv.allows namespace
        → client.get namespace name s ≡ (ok r, s')
        → inv.allows (meta (into r)).namespace
    pub patching :
        (namespace name : String) (patch : Patch)
        → inv.allows namespace
        → (w : World S)
        → Spares inv w (record w { cluster = (client.patch namespace name patch w.cluster).1 })
    pub deleting :
        (namespace name : String)
        → inv.safe kind namespace name
        → (w : World S)
        → Spares inv w (record w { cluster = (client.delete namespace name w.cluster).1 })

  module _ {Run : Type 0} {kind : String} {into : Run → Object} {is_completed : Object → Bool}
      {client : RunClient S Run} (laws : IsRunApi kind into is_completed client) where
    -- The value of a call, changed by a function.
    abbrev pub as_value {ℓ κ} :
        {A : Type ℓ} {B : Type κ} → (A → B) → Result A × World S → Result B × World S
    as_value f = handle (λ e v. (err e, v)) (λ a v. (ok (f a), v))

    abbrev pub get_as : String → String → Exec (World S) Object
    get_as namespace name w = as_value into (call (client.get namespace name) w)

    abbrev pub list_as : String → String → Exec (World S) (List Object)
    list_as namespace selector w = as_value (map into) (call (client.list namespace selector) w)

    abbrev pub patch_as :
        (String → String → Error → Error) → String → String → Patch → Exec (World S) (Unit {0})
    patch_as failed namespace name patch w =
        handle (λ e v. (err (failed namespace name e), v)) (λ _ v. (ok tt, v))
          (call (client.patch namespace name patch) w)

    -- A call whose result is handled with no other call.
    plain-Spares {ℓ κ} :
        {A : Type ℓ} {B : Type κ} (on_error : Error → Result B) (on_value : A → Result B)
        (m : Exec S A) (w : World S)
        → Spares inv w (record w { cluster = (m w.cluster).1 })
        → Spares inv w (handle (λ e v. (on_error e, v)) (λ a v. (on_value a, v)) (call m w)).1
    unfolding call
    plain-Spares on_error on_value m w h =
        handle-Spares inv (λ e v. (on_error e, v)) (λ a v. (on_value a, v)) (call m w) h
          (λ e. Spares-refl inv _) (λ a _. Spares-refl inv _)

    All-into :
        (rs : List Run)
        → All (λ r. is_completed (into r) ≡ true → IsSafeObject inv kind (into r)) rs
        → All (λ o. is_completed o ≡ true → IsSafeObject inv kind o) (map into rs)
    All-into [] h = tt
    All-into (r ∷ rs) h = (h.0, All-into rs h.1)

    abbrev value {ℓ} : {A : Type ℓ} → A → Result A → A
    value d (ok a) = a
    value d (err e) = d

    err-ok {ℓ} : {A : Type ℓ} {e : Error} {a : A} → err e ≡ ok a → ⊥
    err-ok h = ground arith

    as_value_ok {ℓ κ} :
        {A : Type ℓ} {B : Type κ} (f : A → B) (m : Exec S A) (w : World S) {b : B} {w' : World S}
        → as_value f (call m w) ≡ (ok b, w')
        → (a : A) × (s' : S) × (m w.cluster ≡ (ok a, s')) × (f a ≡ b)
    unfolding call
    as_value_ok f m w {b} {w'} h = of_result (m w.cluster) refl
      where
        of_result :
            (q : Result _ × S)
            → m w.cluster ≡ q
            → (a : _) × (s' : S) × (m w.cluster ≡ (ok a, s')) × (f a ≡ b)
        of_result (ok a, s) e = (
          a,
          s,
          e,
          ap (λ q. value (f a) q.0)
              (sym (ap (λ q. as_value f (q.0, record w { cluster = q.1 })) e) ∙ h),
        )
        of_result (err x, s) e = absurd (
            err-ok
              (ap (λ q. q.0) (sym (ap (λ q. as_value f (q.0, record w { cluster = q.1 })) e) ∙ h)))

    got_as :
        (namespace name : String) (w : World S) {o : Object} {w' : World S}
        → inv.allows namespace
        → inv.holds w
        → get_as namespace name w ≡ (ok o, w')
        → is_completed o ≡ true
        → inv.safe kind namespace name
    got_as namespace name w allowed alive h completed =
        let (r, s, read, same) = as_value_ok into (client.get namespace name) w h in
        laws.got namespace name w allowed alive read
          (subst (λ x. is_completed x ≡ true) (sym same) completed)

    read_inside_as :
        (namespace name : String) (w : World S) {o : Object} {w' : World S}
        → inv.allows namespace
        → get_as namespace name w ≡ (ok o, w')
        → inv.allows (meta o).namespace
    read_inside_as namespace name w allowed h =
        let (r, s, read, same) = as_value_ok into (client.get namespace name) w h in
        subst (λ x. inv.allows (meta x).namespace) same
          (laws.read_inside namespace name w.cluster allowed read)

    listed_as :
        (namespace selector : String) (w : World S) {os : List Object} {w' : World S}
        → inv.allows namespace
        → inv.holds w
        → list_as namespace selector w ≡ (ok os, w')
        → All (λ o. is_completed o ≡ true → IsSafeObject inv kind o) os
    listed_as namespace selector w allowed alive h =
        let (rs, s, read, same) = as_value_ok (map into) (client.list namespace selector) w h in
        subst (All (λ o. is_completed o ≡ true → IsSafeObject inv kind o)) same
          (All-into rs (laws.listed namespace selector w allowed alive read))

    pub as_keeper :
        (failed : String → String → Error → Error)
        → IsRunKeeper inv kind is_completed get_as
            (patch_as failed)
            (λ namespace name. call (client.delete namespace name))
    unfolding call
    as_keeper failed = record {
      getting = λ namespace name w.
          plain-Spares err (λ r. ok (into r)) (client.get namespace name) w
            (laws.getting namespace name w);
      got = got_as;
      read_inside = read_inside_as;
      patching = λ namespace name patch allowed w.
          plain-Spares (λ e. err (failed namespace name e)) ok (client.patch namespace name patch) w
            (laws.patching namespace name patch allowed w);
      deleting = λ namespace name other w. laws.deleting namespace name other w;
    }

    pub as_lister : IsRunLister inv kind is_completed list_as
    as_lister = record {
      listing = λ namespace selector w.
          plain-Spares err (λ rs. ok (map into rs)) (client.list namespace selector) w
            (laws.listing namespace selector w);
      listed = listed_as;
    }
