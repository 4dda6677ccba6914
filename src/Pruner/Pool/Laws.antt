-- ===== src/Pruner/Pool/Laws.antt =====
-- The runs of the workers of `runGarbageCollector`: what they collect, and that they come to an end.
use mathlib.Core.List.{Permᴰ, ◌++◌}
use mathlib.Core.List.Permᴰ
use tektoncd_pruner.Prelude.{
  String, ℕ, zero, suc, ◌+◌, ◌*◌, ◌<◌, ℤ, ◌≤ℤ◌, pos, negsuc, pos_part, List, [], ◌∷◌, ◌≡◌, ◌⊎◌,
  refl, ap, ◌∙◌, subst, arith, inl, inr, length, All, All-perm, All-of_append_left,
  All-of_append_right,
}
use tektoncd_pruner.Pruner.Pool.{
  Pool, started, Step, receive, complete, Reach, start, later, collect_all,
}

length-middle :
    (front : List String) (ns : String) (back : List String)
    → length (front ++ ns ∷ back) ≡ suc (length (front ++ back))
length-middle [] ns back = refl
length-middle (x ∷ front) ns back = ap suc (length-middle front ns back)

perm_completed :
    (pending front back finished : List String) (ns : String)
    → Permᴰ
        (pending ++ ((front ++ back) ++ ns ∷ finished))
        (pending ++ ((front ++ ns ∷ back) ++ finished))
perm_completed pending front back finished ns = Permᴰ.append_left pending (
    Permᴰ.trans (Permᴰ.middle ns (front ++ back) finished)
      (Permᴰ.append_right finished (Permᴰ.symm (Permᴰ.middle ns front back))))

list_cases : (l : List String) → (l ≡ []) ⊎ ((x : String) × (xs : List String) × (l ≡ x ∷ xs))
list_cases [] = inl refl
list_cases (x ∷ xs) = inr (x, xs, refl)

positive_cases : (n : ℕ) → 0 < n → (k : ℕ) × (n ≡ suc k)
positive_cases zero h = absurd (omega arith)
positive_cases (suc k) h = (k, refl)

not_positive : (z : ℤ) → z ≤ℤ pos 0 → pos_part z ≡ 0
not_positive (pos n) h = omega arith
not_positive (negsuc n) h = refl

-- How far the workers are from the end.
abbrev pub remaining_steps : {W : Type 0} → Pool W → ℕ
remaining_steps s = 2 * length s.pending + length s.busy

-- `runGarbageCollector` waits no longer.
abbrev pub Ended : {W : Type 0} → Pool W → Type 0
Ended s = (s.pending ≡ []) × (s.busy ≡ [])

module _ {W : Type 0} (collect : String → W → W) (namespaces : List String) (workers : ℤ)
    (w : W) where
  -- What holds at any time of the workers and the namespaces.
  pub record Balanced (s : Pool W) : Type 0 where
    pub staff : s.idle + length s.busy ≡ pos_part workers
    pub shared : Permᴰ (s.pending ++ (s.busy ++ s.finished)) namespaces
    pub effect : s.world ≡ collect_all collect s.finished w

  Step-Balanced : {s t : Pool W} → Step collect s t → Balanced s → Balanced t
  Step-Balanced {s} (receive {ns = ns} {rest = rest} {k = k} e f) b = record {
    staff = omega (arith, b.staff, f);
    shared =
        Permᴰ.trans (Permᴰ.middle ns rest (s.busy ++ s.finished))
          (subst (λ l. Permᴰ (l ++ (s.busy ++ s.finished)) namespaces) e b.shared);
    effect = b.effect;
  }
  Step-Balanced {s} (complete front {ns = ns} back e) b = record {
    staff = omega (arith, b.staff, ap length e, length-middle front ns back);
    shared =
        Permᴰ.trans (perm_completed s.pending front back s.finished ns)
          (subst (λ l. Permᴰ (s.pending ++ (l ++ s.finished)) namespaces) e b.shared);
    effect = ap (collect ns) b.effect;
  }

  Reach-Balanced : {s : Pool W} → Reach collect namespaces workers w s → Balanced s
  Reach-Balanced start = record {
    staff = omega arith;
    shared = Permᴰ.append-nil namespaces;
    effect = refl;
  }
  Reach-Balanced (later r step) = Step-Balanced step (Reach-Balanced r)

  -- What is true of every namespace is true of those that the workers have.
  pub All-busy :
      (P : String → Type 0) {s : Pool W}
      → All P namespaces
      → Reach collect namespaces workers w s
      → All P s.busy
  All-busy P {s} h r = All-of_append_left P s.busy s.finished (
      All-of_append_right P s.pending (s.busy ++ s.finished)
        (All-perm P (Permᴰ.symm (Reach-Balanced r).shared) h))

  -- When the workers have ended, every selected namespace was collected, as often as it was
  -- selected, and the state is that of the collections one after the other, in the order of their
  -- completion.
  pub each_namespace_collected :
      {s : Pool W}
      → Reach collect namespaces workers w s
      → Ended s
      → Permᴰ s.finished namespaces × (s.world ≡ collect_all collect s.finished w)
  each_namespace_collected {s} r (sent, idle) =
      let b : Balanced s = Reach-Balanced r in
      (
        subst (λ l. Permᴰ (l ++ s.finished) namespaces) idle
            (subst (λ l. Permᴰ (l ++ (s.busy ++ s.finished)) namespaces) sent b.shared),
        b.effect,
      )

  fewer_by_one : {s t : Pool W} → Step collect s t → suc (remaining_steps t) ≡ remaining_steps s
  fewer_by_one {s} (receive e f) = omega (arith, ap length e)
  fewer_by_one {s} (complete front {ns = ns} back e) =
      omega (arith, ap length e, length-middle front ns back)

  -- Every step of a worker, whichever it is, leaves fewer steps.
  remaining_steps_decrease :
      {s t : Pool W} → Step collect s t → remaining_steps t < remaining_steps s
  remaining_steps_decrease step = omega (arith, fewer_by_one step)

  -- The number of the steps that led to a state.
  abbrev pub steps_of : {s : Pool W} → Reach collect namespaces workers w s → ℕ
  steps_of start = 0
  steps_of (later r step) = suc (steps_of r)

  -- In whatever order the workers take their steps, those taken and those that remain are always two
  -- for each selected namespace: no run of the workers goes on forever, and each one that ends took
  -- as many steps.
  pub steps_are_bounded :
      {s : Pool W} (r : Reach collect namespaces workers w s)
      → steps_of r + remaining_steps s ≡ 2 * length namespaces
  steps_are_bounded start = omega arith
  steps_are_bounded (later r step) = omega (arith, fewer_by_one step, steps_are_bounded r)

  done_or_runnable :
      (s : Pool W)
      → s.idle + length s.busy ≡ pos_part workers
      → pos 1 ≤ℤ workers
      → Ended s ⊎ ((t : Pool W) × Step collect s t)
  done_or_runnable s staff enough = elim (list_cases s.busy) [
    | inr (ns, back, e) ↦ inr (_, complete [] back e)
    | inl free ↦ elim (list_cases s.pending) [
      | inl sent ↦ inl (sent, free)
      | inr (ns, rest, e) ↦
          let (k, f) = positive_cases s.idle (omega (arith, ap length free)) in inr (_, receive e f)
    ]
  ]

  -- With at least one worker there is no deadlock: at any time the workers have ended, or they can
  -- take a step, after which fewer steps remain.
  pub workers_make_progress :
      pos 1 ≤ℤ workers
      → {s : Pool W} → Reach collect namespaces workers w s
      → Ended s ⊎ ((t : Pool W) × Step collect s t × (remaining_steps t < remaining_steps s))
  workers_make_progress enough {s} r = elim (done_or_runnable s (Reach-Balanced r).staff enough) [
    | inl ended ↦ inl ended
    | inr (t, step) ↦ inr (t, step, remaining_steps_decrease step)
  ]

  stuck : (s t : Pool W) → s.idle + length s.busy ≡ 0 → ¬ (Step collect s t)
  stuck s t staff (receive e f) = absurd (omega (arith, staff, f))
  stuck s t staff (complete front {ns = ns} back e) =
      absurd (omega (arith, staff, ap length e, length-middle front ns back))

  -- With no worker, or a negative number of them, nothing is ever sent: each reachable state is the
  -- first one, and no step leads out of it, so with a namespace selected the wait never ends.
  pub no_worker_no_progress :
      workers ≤ℤ pos 0
      → {s : Pool W} (t : Pool W) → Reach collect namespaces workers w s
      → (s ≡ started namespaces workers w) × ¬ (Step collect s t)
  no_worker_no_progress none_hired t start =
      (refl, stuck _ t ((Reach-Balanced start).staff ∙ not_positive workers none_hired))
  no_worker_no_progress none_hired t (later r step) =
      absurd (stuck _ _ ((Reach-Balanced r).staff ∙ not_positive workers none_hired) step)
