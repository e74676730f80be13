-- ===== src/ThreadPool/Refine.antt =====
-- A pool seen as jobs that wait, are served and have been served.
use mathlib.Core.Path.{fun_ext}
use module_flow.Prelude.{
  increment, ℕ, Bool, true, zero, suc, ◌+◌, ◌≡◌, refl, sym, ap, subst, ◌∙◌, ◌<◌, ◌≤◌, Option, none,
  some, [], ◌∷◌, ◌++◌, arith, ◌==◌, nat_eq, nat_beq_iff, Bool-cases, inl, inr, ltb,
}
use module_flow.ThreadPool.Workers.{update}
use module_flow.ThreadPool.{
  threadpool_max_num, Pc, head, entering, took, executing, finished, Pool, wake, Move, take,
  execute, add_thread, new_pool, no_workers, Step, worker, wake_up, push, grow, no_grow, spawn,
  no_spawn, counted, notify_one, notify_nobody, stop, notify_all, join, Reach, here, next,
}
use module_flow.ThreadPool.Invariant.Defs.{Inv}
use module_flow.ThreadPool.Invariant.Steps.{Reach-Inv, new_pool-Inv}
use module_flow.ThreadPool.Growth.{add_thread-suc, add_thread-zero}
use module_flow.ThreadPool.Jobs
use module_flow.ThreadPool.Jobs.{Jobs, JobReach, submit, start, finish, no_jobs}

-- The task that a worker has.
abbrev pub job_of : Pc → Option ℕ
job_of (took t) = some t
job_of (executing t) = some t
job_of _ = none

abbrev pub jobs : Pool → Jobs
jobs s = record { waiting = s.tasks_; serving = λ i. job_of (s.pc i); served = s.executed }

job_of-update :
    (f : ℕ → Pc) (i : ℕ) (q : Pc)
    → update (λ k. job_of (f k)) i (job_of q) ≡ (λ k. job_of (update f i q k))
job_of-update f i q = fun_ext λ k. elim (Bool-cases (i == k)) [ inl y ↦ rw y | inr n ↦ rw n ]

-- A worker that goes to a place with the same task.
job_of-same :
    (f : ℕ → Pc) (i : ℕ) (q : Pc)
    → job_of q ≡ job_of (f i)
    → ◌≡◌ {A = ℕ → Option ℕ} (λ k. job_of (f k)) (λ k. job_of (update f i q k))
job_of-same f i q e = fun_ext λ k. ground (arith, nat_beq_iff i k)

module _ {j : Jobs} {s : Pool} (i : ℕ) (lt : i < threadpool_max_num) (r : JobReach j (jobs s)) where
  move_refines :
      {p q : Pc} {u : Pool}
      → Move i s p u q
      → s.pc i ≡ p
      → JobReach j (jobs (record u { pc = update s.pc i q }))
  move_refines {p} {q} (take t ts h) e =
      subst
        (λ (f : ℕ → Option ℕ).
          JobReach j (record { waiting = ts; serving = f; served = s.executed }))
        (job_of-update s.pc i (took t)) (Jobs.next r (start i t ts lt h (ap job_of e)))
  move_refines (execute {t}) e =
      subst
        (λ (f : ℕ → Option ℕ).
          JobReach j (record { waiting = s.tasks_; serving = f; served = s.executed ++ t ∷ [] }))
        (job_of-update s.pc i finished) (Jobs.next r (finish i t (ap job_of e)))
  move_refines {p} {q} mv e =
      subst
        (λ (f : ℕ → Option ℕ).
          JobReach j (record { waiting = s.tasks_; serving = f; served = s.executed }))
        (job_of-same s.pc i q (ap job_of (sym e))) r

job_of-wake : (p : Pc) → job_of (wake p) ≡ job_of p
job_of-wake p = ground arith

-- The places of workers that have no task do not count.
rearranged :
    {j : Jobs} (s : Pool) (f : ℕ → Pc)
    → ((i : ℕ) → job_of (f i) ≡ job_of (s.pc i))
    → JobReach j (jobs s)
    → JobReach j (jobs (record s { pc = f }))
rearranged {j} s f e r =
    subst
      (λ (g : ℕ → Option ℕ).
        JobReach j (record { waiting = s.tasks_; serving = g; served = s.executed }))
      (fun_ext λ i. sym (e i)) r

-- New workers have no task.
add_thread-jobs :
    (n : ℕ) (s : Pool) → ((i : ℕ) → s.size ≤ i → s.pc i ≡ head) → jobs (add_thread n s) ≡ jobs s
add_thread-jobs zero s unborn = ap jobs (add_thread-zero s)
add_thread-jobs (suc n) s unborn = elim (Bool-cases (ltb s.size threadpool_max_num)) [
  | inl y ↦
      rw (add_thread-suc n s, y)
        (add_thread-jobs n
            (record s {
              size = s.size + 1;
              idle_thr_num_ = increment s.idle_thr_num_;
              pc = update s.pc s.size head;
            })
            (λ i l. ground (arith, unborn i, nat_beq_iff s.size i))
          ∙ ap
              (λ (f : ℕ → Option ℕ).
                let j : Jobs = record { waiting = s.tasks_; serving = f; served = s.executed } in j)
              (sym (job_of-same s.pc s.size head (ap job_of (sym (unborn s.size (omega arith)))))))
  | inr z ↦ rw (add_thread-suc n s, z) (add_thread-jobs n s unborn)
]

step_refines :
    {w : Bool} {j : Jobs} {s t : Pool}
    → Step w s t
    → Inv s
    → JobReach j (jobs s)
    → JobReach j (jobs t)
step_refines (worker i lt mv) inv r = move_refines i (omega (arith, inv.room)) r mv refl
step_refines (push t o ru l) inv r = Jobs.next r (submit t)
step_refines (grow o h k) inv r = r
step_refines (no_grow o h) inv r = r
step_refines {w} {j} {s} (spawn o l) inv r =
    rearranged s (update s.pc s.size head)
      (λ i. ground (arith, inv.unborn s.size, nat_beq_iff s.size i)) r
step_refines (no_spawn o l) inv r = r
step_refines (counted o) inv r = r
step_refines {w} {j} {s} (wake_up i y lt b) inv r =
    rearranged s (update s.pc i entering) (λ k. ground (arith, nat_beq_iff i k)) r
step_refines {w} {j} {s} (notify_one i o lt b) inv r =
    rearranged s (update s.pc i entering) (λ k. ground (arith, nat_beq_iff i k)) r
step_refines (notify_nobody o h) inv r = r
step_refines (stop o) inv r = r
step_refines {w} {j} {s} (notify_all o) inv r =
    rearranged s (λ i. wake (s.pc i)) (λ i. job_of-wake (s.pc i)) r
step_refines (join o h) inv r = r

reach_refines :
    {w : Bool} {j : Jobs} {s t : Pool}
    → Reach w s t
    → Inv s
    → JobReach j (jobs s)
    → JobReach j (jobs t)
reach_refines here inv r = r
reach_refines (next p st) inv r = step_refines st (Reach-Inv p inv) (reach_refines p inv r)

-- Whatever the workers and the owner of a pool do, and in whatever order, what a pool that was made
-- with any number of workers comes to is what the abstract jobs can come to from none, where a job is
-- submitted behind those that wait, one of 16 servers without a job takes the first that waits, and
-- a server that has a job finishes it.
pub pool_refines : (n : ℕ) (s : Pool) → Reach true (new_pool n) s → JobReach no_jobs (jobs s)
unfolding new_pool
pool_refines n s r =
    reach_refines r (new_pool-Inv n)
      (subst (JobReach no_jobs) (sym (add_thread-jobs n no_workers (λ i l. refl))) JobReach.here)
