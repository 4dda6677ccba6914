-- ===== src/World.antt =====
-- The state that the handlers run over: the cluster behind the API client, and the two singletons
-- of the process, `config.PrunerConfigStore` and the metrics recorder.
use tektoncd_pruner.Go.Exec.{Exec}
use tektoncd_pruner.Go.Time.{Time}
use tektoncd_pruner.Kube.Api.{Platform}
use tektoncd_pruner.Config.Store.{PrunerConfigStore}
use tektoncd_pruner.Metrics.{Recorder}

pub record World (S : Type 0) : Type 0 where
  pub cluster : S
  pub store : PrunerConfigStore
  pub recorder : Recorder

module _ {S : Type 0} where
  -- a call of the client
  unfoldable pub call {ℓ} : {A : Type ℓ} → Exec S A → Exec (World S) A
  call m w = let (r, s) = m w.cluster in (r, record w { cluster = s })

  -- `time.Now()`
  unfoldable pub read_clock : Platform S → World S → Time × World S
  read_clock p w = let (t, s) = p.now w.cluster in (t, record w { cluster = s })

  -- a call of a method of the recorder
  abbrev pub measure : (Recorder → Recorder) → World S → World S
  measure f w = record w { recorder = f w.recorder }
