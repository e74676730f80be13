-- ===== src/ThreadPool/Idle.antt =====
-- The pools that the constructor leaves.
use module_flow.Prelude.{
  increment, pos, ℕ, zero, suc, ◌+◌, ◌≡◌, refl, ◌<◌, ◌≤◌, true, none, [], arith, inl, inr,
  Bool-cases, ltb, nat_eq,
}
use module_flow.ThreadPool.Workers.{update}
use module_flow.ThreadPool.Growth.{add_thread-suc, add_thread-zero}
use module_flow.ThreadPool.{threadpool_max_num, head, ready, Pool, add_thread, new_pool, no_workers}

-- A pool whose workers have not begun.
pub record Idle (s : Pool) : Type 0 where
  pub runs : s.run_ ≡ true
  pub unlocked : s.lock_ ≡ none
  pub no_tasks : s.tasks_ ≡ []
  pub between_calls : s.owner ≡ ready
  pub at_head : (i : ℕ) → s.pc i ≡ head

add_thread-Idle :
    (n : ℕ) (s : Pool) → Idle s → Idle (add_thread n s) × (s.size ≤ (add_thread n s).size)
add_thread-Idle zero s h = rw (add_thread-zero s) (h, omega arith)
add_thread-Idle (suc n) s h = elim (Bool-cases (ltb s.size threadpool_max_num)) [
  | inl y ↦
      let (g, l) =
        add_thread-Idle n
          (record s {
            size = s.size + 1;
            idle_thr_num_ = increment s.idle_thr_num_;
            pc = update s.pc s.size head;
          })
          (record {
            runs = h.runs;
            unlocked = h.unlocked;
            no_tasks = h.no_tasks;
            between_calls = h.between_calls;
            at_head = λ i. ground (arith, h.at_head i);
          }) in
      rw (add_thread-suc n s, y) (g, omega (arith, l))
  | inr z ↦ rw (add_thread-suc n s, z) (add_thread-Idle n s h)
]

no_workers-Idle : Idle no_workers
no_workers-Idle = record {
  runs = refl;
  unlocked = refl;
  no_tasks = refl;
  between_calls = refl;
  at_head = λ i. refl;
}

-- A new pool, and one that was asked for workers.
pub every_pool-Idle : (n : ℕ) → Idle (new_pool n)
unfolding new_pool
every_pool-Idle n = (add_thread-Idle n no_workers no_workers-Idle).0

pub new_pool-Idle : (n : ℕ) → 1 ≤ n → Idle (new_pool n) × (0 < (new_pool n).size)
unfolding new_pool add_thread increment
new_pool-Idle zero l = absurd (omega arith)
new_pool-Idle (suc n) l =
    let (g, k) =
      add_thread-Idle n
        (record no_workers { size = 1; idle_thr_num_ = pos 1; pc = update (λ i. head) 0 head })
        (record {
          runs = refl;
          unlocked = refl;
          no_tasks = refl;
          between_calls = refl;
          at_head = λ i. ground arith;
        }) in
    (g, omega (arith, k))
