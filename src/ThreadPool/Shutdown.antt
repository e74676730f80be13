-- ===== src/ThreadPool/Shutdown.antt =====
-- The destructor, which sets run_ without the lock, while a worker is between its test of the
-- condition and its wait.
use module_flow.Prelude.{
  ℕ, ◌≡◌, refl, ◌<◌, ◌≤◌, ◌≢◌, ◌∙◌, false, none, some, arith, nat_eq, nat_beq_iff,
}
use module_flow.ThreadPool.Workers.{update}
use module_flow.ThreadPool.Paths.{worker_at}
use module_flow.ThreadPool.Idle.{Idle, new_pool-Idle}
use module_flow.ThreadPool.{
  Pc, entering, deciding, blocked, joining, Pool, wake, Move, loop_on, check_false, block, Step,
  worker, wake_up, push, grow, no_grow, spawn, no_spawn, counted, notify_one, notify_nobody, stop,
  notify_all, join, Reach, here, next, new_pool,
}

-- The destructor waits for worker 0, and that worker waits for a notification.
record Stuck (s : Pool) : Type 0 where
  waits : s.owner ≡ joining
  sleeps : s.pc 0 ≡ blocked
  there : 0 < s.size

Stuck-move :
    {s u : Pool} {p q : Pc} (i : ℕ)
    → Move i s p u q
    → Stuck s
    → s.pc i ≡ p
    → (u.owner ≡ s.owner) × (u.size ≡ s.size) × (0 ≢ i)
Stuck-move i (loop_on a) h e = (refl, refl, λ z. ground (arith, h.sleeps, e, z))
Stuck-move i mv h e = (refl, refl, λ z. ground (arith, h.sleeps, e, z))

Step-Stuck : {s t : Pool} → Step false s t → Stuck s → Stuck t
Step-Stuck {s} (worker i lt mv) h =
    let (o, z, n) = Stuck-move i mv h refl in
    record {
      waits = o ∙ h.waits;
      sleeps = ground (arith, h.sleeps, nat_beq_iff i 0);
      there = omega (arith, z, h.there);
    }
Step-Stuck (wake_up i y l b) h = cc
Step-Stuck (push t o r l) h = absurd (ground (arith, h.waits))
Step-Stuck (grow o k l) h = absurd (ground (arith, h.waits))
Step-Stuck (no_grow o k) h = absurd (ground (arith, h.waits))
Step-Stuck (spawn o k) h = absurd (ground (arith, h.waits))
Step-Stuck (no_spawn o k) h = absurd (ground (arith, h.waits))
Step-Stuck (counted o) h = absurd (ground (arith, h.waits))
Step-Stuck (notify_one i o l b) h = absurd (ground (arith, h.waits))
Step-Stuck (notify_nobody o k) h = absurd (ground (arith, h.waits))
Step-Stuck (stop o) h = absurd (ground (arith, h.waits))
Step-Stuck (notify_all o) h = absurd (ground (arith, h.waits))
Step-Stuck (join o k) h = absurd (ground (arith, k 0 h.there, h.sleeps))

Reach-Stuck : {s t : Pool} → Reach false s t → Stuck s → Stuck t
Reach-Stuck here h = h
Reach-Stuck (next r st) h = Step-Stuck st (Reach-Stuck r h)

-- Worker 0 tests the condition and finds nothing; the destructor runs up to join; the worker waits.
module _ (s : Pool) (h : Idle s) (lt : 0 < s.size) where
  abbrev entered : Pool
  entered = record s { pc = update s.pc 0 entering }

  abbrev decided : Pool
  decided = record s { lock_ = some 0; pc = update (update s.pc 0 entering) 0 deciding }

  abbrev told : Pool
  told = record decided { run_ = false; owner = joining; pc = λ i. wake (decided.pc i) }

  abbrev asleep : Pool
  asleep = record told { lock_ = none; pc = update told.pc 0 blocked }

  lost : Reach false s asleep
  lost =
      next
        (next
          (next
            (next (next here (worker_at 0 lt (h.at_head 0) (loop_on h.runs))) (
              worker_at {s = entered} 0 lt refl
                (check_false h.unlocked (ground (arith, h.runs, h.no_tasks)))))
            (stop h.between_calls))
          (notify_all refl))
        (worker_at {s = told} 0 lt refl block)

-- Where no wait ends spuriously: for any number of workers but 0 there is an order of steps, from a
-- new pool that nobody has submitted to, that leads to a state in which the destructor waits for worker 0 to end and worker 0
-- waits for a notification; this is so in every state that can follow, so the destructor never
-- returns.
pub shutdown_deadlock :
    (n : ℕ)
    → 1 ≤ n
    → (s : Pool) × Reach false (new_pool n) s
      × ((t : Pool) → Reach false s t → (t.owner ≡ joining) × (t.pc 0 ≡ blocked))
shutdown_deadlock n l =
    let (idle, lt) = new_pool-Idle n l in
    (
      asleep (new_pool n) idle lt,
      lost (new_pool n) idle lt,
      λ t r.
          let h = Reach-Stuck r (record { waits = refl; sleeps = refl; there = lt }) in
          (h.waits, h.sleeps),
    )
