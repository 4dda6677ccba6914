-- ===== src/Tests/Start.antt =====
-- The start of the process with and without rates of its own. A rate is a number of halves here.
use tektoncd_pruner.Prelude.{ℤ, pos, eqb_ℤ, ◌+ℤ◌, [], ◌∷◌, ◌≡◌, refl}
use tektoncd_pruner.Start.{scoped_namespaces, Config, with_rates}

abbrev doubled : ℤ → ℤ
doubled n = n +ℤ n

abbrev without_rates : Config ℤ (λ n. eqb_ℤ n (pos 0)) doubled (pos 10) (pos 10)
without_rates = record { qps = pos 0; burst = pos 0 }

default_rates :
    with_rates ℤ (λ n. eqb_ℤ n (pos 0)) doubled (pos 10) (pos 10) without_rates
    ≡ record { qps = pos 40; burst = pos 20 }
unfolding with_rates
default_rates = refl

two_names : scoped_namespaces "dev, test" ≡ "dev" ∷ "test" ∷ []
unfolding scoped_namespaces
two_names = refl

no_names : scoped_namespaces "" ≡ []
unfolding scoped_namespaces
no_names = refl
