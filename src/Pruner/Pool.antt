-- ===== src/Pruner/Pool.antt =====
-- The workers of `runGarbageCollector`: an unbuffered channel, from which each of them takes a
-- namespace when it has none, and the wait for all of them. The collection of one namespace is one
-- step of its worker; the order in which the workers end is arbitrary.
pub mod Laws
use mathlib.Core.List.{◌++◌}
use tektoncd_pruner.Prelude.{String, ℕ, suc, ℤ, pos_part, List, [], ◌∷◌, ◌≡◌}

pub record Pool (W : Type 0) : Type 0 where
  -- the namespaces that `runGarbageCollector` has not sent yet
  pub pending : List String
  -- the workers that wait at the channel
  pub idle : ℕ
  -- the namespaces that the other workers have
  pub busy : List String
  -- the namespaces that were collected, the last one first
  pub finished : List String
  pub world : W

module _ {W : Type 0} where
  -- `for i := 0; i < workerCount; i++`
  abbrev pub started : List String → ℤ → W → Pool W
  started namespaces workers w = record {
    pending = namespaces;
    idle = pos_part workers;
    busy = [];
    finished = [];
    world = w;
  }

  module _ (collect : String → W → W) where
    pub data Step (s : Pool W) : Pool W → Type 0 where
      -- `nsChan <- ns`, received by a worker that waits
      receive :
          {ns : String} {rest : List String} {k : ℕ}
          → s.pending ≡ ns ∷ rest
          → s.idle ≡ suc k
          → Step s (record s { pending = rest; idle = k; busy = ns ∷ s.busy })
      -- a worker is done with its namespace and goes back to the channel
      complete :
          (front : List String) {ns : String} (back : List String)
          → s.busy ≡ front ++ ns ∷ back
          → Step s (record s {
            idle = suc s.idle;
            busy = front ++ back;
            finished = ns ∷ s.finished;
            world = collect ns s.world;
          })

    pub data Reach (namespaces : List String) (workers : ℤ) (w : W) : Pool W → Type 0 where
      start : Reach namespaces workers w (started namespaces workers w)
      later :
          {s t : Pool W} → Reach namespaces workers w s → Step s t → Reach namespaces workers w t

    -- The collections of the namespaces, the last one of the list first in time.
    abbrev pub collect_all : List String → W → W
    collect_all [] w = w
    collect_all (ns ∷ before) w = collect ns (collect_all before w)
