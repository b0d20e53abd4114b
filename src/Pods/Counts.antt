-- ===== src/Pods/Counts.antt =====
-- The summary of getPodStatus (internal/controller/appwrapper/appwrapper_controller.go) against counts.
use appwrapper.Base.{
  ℤ, pos, ℕ, suc, ◌+◌, ◌<◌, ◌^◌, ◌≡◌, ◌↔◌, refl, arith, Bool, true, false, ◌&&◌, ◌||◌, not, List,
  [], ◌∷◌, length, any, ◌+ℤ◌, int32, if◌then◌else◌,
}
use appwrapper.Api.{AppWrapper}
use appwrapper.Durations.{terminal_exit_codes, retryable_exit_codes}
use appwrapper.Cluster.{
  Kit, NodeTable, Pod, PodPhase, pod_pending, pod_running, pod_succeeded, pod_failed,
}
use appwrapper.Pods.Exits.{AnyOf, any_iff, Terminal, is_terminal_failure-Terminal}
use appwrapper.Pods.{
  PodStatusSummary, is_set, is_terminal_failure, add_running, add_pod, add_pods, summarize,
}

-- The number of elements that pass a test.
abbrev pub count : {A : Type 0} → (A → Bool) → List A → ℕ
count p [] = 0
count p (x ∷ xs) = if p x then suc (count p xs) else count p xs

abbrev pub is_pending : Pod → Bool
is_pending p = elim p.phase [ pod_pending ↦ true | _ ↦ false ]

-- Running, and not being deleted.
abbrev pub is_running : Pod → Bool
is_running p = elim p.phase [ pod_running ↦ not (is_set p.deletion_timestamp) | _ ↦ false ]

abbrev pub is_succeeded : Pod → Bool
is_succeeded p = elim p.phase [ pod_succeeded ↦ true | _ ↦ false ]

abbrev pub is_failed : Pod → Bool
is_failed p = elim p.phase [ pod_failed ↦ true | _ ↦ false ]

abbrev bit : Bool → ℕ
bit b = if b then 1 else 0

one_more_pos : (n : ℕ) → n + 1 < 2 ^ 31 → int32 (pos n +ℤ pos 1) ≡ pos (n + 1)
unfolding ◌+ℤ◌ int32
one_more_pos n h = ground arith

module _ (check : Bool) (terminal retryable : List ℤ) where
  -- A counter that goes up by one at each pod that passes the test.
  module _ (get : PodStatusSummary → ℤ) (test : Pod → Bool)
      (step : (t : NodeTable) (x : Pod) (s : PodStatusSummary) (n : ℕ)
        → n + 1 < 2 ^ 31
        → get s ≡ pos n
        → get (add_pod check terminal retryable t x s) ≡ pos (n + bit (test x))) where
    counter_exact :
        (table : ℕ → NodeTable) (i : ℕ) (ps : List Pod) (s : PodStatusSummary) (n : ℕ)
        → n + length ps < 2 ^ 31
        → get s ≡ pos n
        → get (add_pods check terminal retryable table i ps s) ≡ pos (n + count test ps)
    unfolding add_pods
    counter_exact table i [] s n h e = ground arith
    counter_exact table i (x ∷ ps) s n h e = ground (
      arith,
      counter_exact table (suc i) ps (add_pod check terminal retryable (table i) x s)
          (n + bit (test x)) (ground arith) (step (table i) x s n (omega arith) e),
    )

    counter_from_zero :
        (table : ℕ → NodeTable) (i : ℕ) (ps : List Pod) (s : PodStatusSummary)
        → length ps < 2 ^ 31
        → get s ≡ pos 0
        → get (add_pods check terminal retryable table i ps s) ≡ pos (count test ps)
    counter_from_zero table i ps s h e = ground (arith, counter_exact table i ps s 0)

  pending_step :
      (t : NodeTable) (x : Pod) (s : PodStatusSummary) (n : ℕ)
      → n + 1 < 2 ^ 31
      → s.pending ≡ pos n
      → (add_pod check terminal retryable t x s).pending ≡ pos (n + bit (is_pending x))
  unfolding add_pod
  pending_step t x s n h e = ground (arith, one_more_pos n)

  running_step :
      (t : NodeTable) (x : Pod) (s : PodStatusSummary) (n : ℕ)
      → n + 1 < 2 ^ 31
      → s.running ≡ pos n
      → (add_pod check terminal retryable t x s).running ≡ pos (n + bit (is_running x))
  unfolding add_pod add_running
  running_step t x s n h e = ground (arith, one_more_pos n)

  succeeded_step :
      (t : NodeTable) (x : Pod) (s : PodStatusSummary) (n : ℕ)
      → n + 1 < 2 ^ 31
      → s.succeeded ≡ pos n
      → (add_pod check terminal retryable t x s).succeeded ≡ pos (n + bit (is_succeeded x))
  unfolding add_pod
  succeeded_step t x s n h e = ground (arith, one_more_pos n)

  failed_step :
      (t : NodeTable) (x : Pod) (s : PodStatusSummary) (n : ℕ)
      → n + 1 < 2 ^ 31
      → s.failed ≡ pos n
      → (add_pod check terminal retryable t x s).failed ≡ pos (n + bit (is_failed x))
  unfolding add_pod
  failed_step t x s n h e = ground (arith, one_more_pos n)

  terminal_exact :
      (table : ℕ → NodeTable) (i : ℕ) (ps : List Pod) (s : PodStatusSummary)
      → (add_pods check terminal retryable table i ps s).terminal_failure ≡ (
          s.terminal_failure
          || any (λ p. is_failed p && is_terminal_failure terminal retryable p) ps)
  unfolding add_pods add_pod add_running
  terminal_exact table i [] s = ground arith
  terminal_exact table i (x ∷ ps) s =
      ground
        (arith, terminal_exact table (suc i) ps (add_pod check terminal retryable (table i) x s))

failed_iff : (p : Pod) → (is_failed p ≡ true) ↔ (p.phase ≡ pod_failed)
failed_iff p = go p.phase
  where
    go : (x : PodPhase) → ((elim x [ pod_failed ↦ true | _ ↦ false ]) ≡ true) ↔ (x ≡ pod_failed)
    go pod_failed = (λ e. refl, λ e. refl)
    go pod_pending = (λ e. absurd cc, λ e. absurd cc)
    go pod_running = (λ e. absurd cc, λ e. absurd cc)
    go pod_succeeded = (λ e. absurd cc, λ e. absurd cc)
    go _ = (λ e. absurd cc, λ e. absurd cc)

failed_Terminal :
    (terminal retryable : List ℤ) (p : Pod)
    → ((is_failed p && is_terminal_failure terminal retryable p) ≡ true)
      ↔ ((p.phase ≡ pod_failed) × Terminal terminal retryable p)
failed_Terminal terminal retryable p = (
  λ h.
      let both : (is_failed p ≡ true) × (is_terminal_failure terminal retryable p ≡ true) =
        ground arith in
      ((failed_iff p).0 both.0, (is_terminal_failure-Terminal terminal retryable p).0 both.1),
  λ (f, t).
      let a = (failed_iff p).1 f in
      let b = (is_terminal_failure-Terminal terminal retryable p).1 t in ground arith,
)

module _ {W : Type 0} (k : Kit W) where
  -- For fewer than 2 ^ 31 pods the summary of getPodStatus counts them exactly: the pending, the
  -- running that are not being deleted, the succeeded and the failed. It reports a terminal
  -- failure if and only if there is a failed pod with a container that ended with a code other
  -- than zero, where the code is one of the terminal codes of the annotations, or retryable codes
  -- are given there and it is none of them.
  pub summarize_exact :
      (aw : AppWrapper) (w : W) (n : ℤ) (ps : List Pod)
      → length ps < 2 ^ 31
      → let s = summarize k aw w n ps in
        (s.pending ≡ pos (count is_pending ps))
        × (s.running ≡ pos (count is_running ps))
        × (s.succeeded ≡ pos (count is_succeeded ps))
        × (s.failed ≡ pos (count is_failed ps))
        × ((s.terminal_failure ≡ true)
            ↔ AnyOf
                (λ p.
                  (p.phase ≡ pod_failed)
                  × Terminal (terminal_exit_codes aw) (retryable_exit_codes aw) p)
                ps)
  unfolding summarize
  summarize_exact aw w n ps h = (
    counter_from_zero _ _ _ (λ s. s.pending) is_pending (pending_step _ _ _) _ 0 ps _ h refl,
    counter_from_zero _ _ _ (λ s. s.running) is_running (running_step _ _ _) _ 0 ps _ h refl,
    counter_from_zero _ _ _ (λ s. s.succeeded) is_succeeded (succeeded_step _ _ _) _ 0 ps _ h refl,
    counter_from_zero _ _ _ (λ s. s.failed) is_failed (failed_step _ _ _) _ 0 ps _ h refl,
    rw (terminal_exact _ _ _ _ 0 ps _)
        (any_iff (failed_Terminal (terminal_exit_codes aw) (retryable_exit_codes aw)) ps),
  )
