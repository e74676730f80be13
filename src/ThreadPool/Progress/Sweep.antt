-- ===== src/ThreadPool/Progress/Sweep.antt =====
-- The workers of a pool with an empty queue execute what they have taken.
use module_flow.Prelude.{
  ℕ, zero, suc, ◌≡◌, refl, ◌<◌, ◌≤◌, Bool, true, false, List, [], arith, nat_beq_iff, nat_eq,
}
use module_flow.ThreadPool.Workers.{sum_below, sum_below-none}
use module_flow.ThreadPool.{Pc, took, executing, Pool, Move, busy, execute, here}
use module_flow.ThreadPool.Invariant.Defs.{carries}
use module_flow.ThreadPool.Paths.{worker_at, update_self}
use module_flow.ThreadPool.Progress.Drain.{Runs, Leads, after, and_then, worker-Runs}

abbrev pub has_work : Pc → Bool
has_work (took t) = true
has_work (executing t) = true
has_work _ = false

-- The workers below n have no task.
abbrev pub Swept : ℕ → Pool → Type 0
Swept n s = (k : ℕ) → k < n → has_work (s.pc k) ≡ false

pub Swept-carries : (s : Pool) (a : ℕ) → Swept s.size s → sum_below (carries a) s.size s.pc ≡ 0
Swept-carries s a h = sum_below-none (carries a) s.size s.pc (λ i l. free (s.pc i) (h i l))
  where
    free : (p : Pc) → has_work p ≡ false → carries a p ≡ 0
    free p e = ground arith

module _ (xs : List ℕ) (n : ℕ) where
  abbrev pub Ending : ℕ → Pool → Type 0
  Ending i u = Runs xs u × (u.tasks_ ≡ []) × (u.size ≡ n) × Swept i u

  from_executing :
      (s : Pool) (i t : ℕ) → i < n → s.pc i ≡ executing t → Ending i s → Leads s (Ending (suc i))
  from_executing s i t lt e (g, q, z, h) =
      let l : i < s.size = omega (arith, z) in
      let mv : Move i s (executing t) _ _ = execute in
      after (worker_at i l e mv)
        (_, here, (worker-Runs xs g i l e mv, q, z, λ k l'. ground (arith, h k, nat_beq_iff i k)))

  from_took : (s : Pool) (i t : ℕ) → i < n → s.pc i ≡ took t → Ending i s → Leads s (Ending (suc i))
  from_took s i t lt e (g, q, z, h) =
      let l : i < s.size = omega (arith, z) in
      let mv : Move i s (took t) _ _ = busy in
      after (worker_at i l e mv) (
        from_executing _ i t lt (update_self s.pc i (executing t))
          (worker-Runs xs g i l e mv, q, z, λ k l'. ground (arith, h k, nat_beq_iff i k)))

  from_place :
      (p : Pc) (s : Pool) (i : ℕ) → i < n → s.pc i ≡ p → Ending i s → Leads s (Ending (suc i))
  from_place (took t) s i lt e f = from_took s i t lt e f
  from_place (executing t) s i lt e f = from_executing s i t lt e f
  from_place p s i lt e (g, q, z, h) =
      (s, here, (g, q, z, λ k l. ground (arith, h k, nat_beq_iff i k)))

  pub all_end :
      (i : ℕ) (s : Pool) → i ≤ n → Runs xs s → s.tasks_ ≡ [] → s.size ≡ n → Leads s (Ending i)
  all_end zero s l g q z = (s, here, (g, q, z, λ k h. absurd (omega arith)))
  all_end (suc i) s l g q z =
      and_then {P = Ending i} {Q = Ending (suc i)} (all_end i s (omega arith) g q z)
        (λ t f. from_place (t.pc i) t i (omega arith) refl f)
