-- ===== src/ThreadPool/Progress/Claims.antt =====
-- What a pool can always come to while it runs.
use module_flow.Prelude.{
  ℕ, ◌≡◌, refl, sym, ◌∙◌, true, false, [], ◌++◌, arith, append-nil, ap, count,
}
use module_flow.ThreadPool.{Pool, Reach, new_pool}
use module_flow.ThreadPool.Invariant.Steps.{Reach-Inv, new_pool-Inv}
use module_flow.ThreadPool.Progress.Live.{Reach-Live, new_pool-Live}
use module_flow.ThreadPool.Progress.Drain.{Runs, and_then, empty_queue}
use module_flow.ThreadPool.Progress.Owner.{owner_returns}
use module_flow.ThreadPool.Progress.Sweep.{Ending, all_end, Swept-carries}

-- A pool in which all that was submitted has been executed.
abbrev pub Drained : Pool → Pool → Type 0
Drained s u =
    (u.run_ ≡ true)
    × (u.submitted ≡ s.submitted)
    × (u.tasks_ ≡ [])
    × (u.taken ≡ s.submitted)
    × ((a : ℕ) → count a u.executed ≡ count a s.submitted)

ended-Drained : (s u : Pool) → Ending s.submitted u.size u.size u → Drained s u
ended-Drained s u (g, q, z, h) =
    let all_taken : u.taken ≡ s.submitted =
      sym (append-nil u.taken) ∙ ap (◌++◌ u.taken) (sym q) ∙ g.inv.fifo ∙ g.has_all in
    (
      g.runs,
      g.has_all,
      q,
      all_taken,
      λ a. omega (arith, g.inv.called a, Swept-carries u a h, ap (count a) all_taken),
    )

-- In every state that a new pool of any size can reach, with spurious wake-ups or without, and in
-- which the pool has not been stopped, the pool can go on, without a spurious wake-up and without
-- another submission, to a state in which it has not been stopped, the queue is empty, all that was
-- submitted has been taken in its order, and each task has been executed as often as it was
-- submitted. So no notification for a submission is lost, and no worker keeps the others out.
pub queue_drains :
    (n : ℕ) (s : Pool)
    → Reach true (new_pool n) s
    → s.run_ ≡ true
    → (u : Pool) × Reach false s u × Drained s u
queue_drains n s r runs =
    let inv = Reach-Inv r (new_pool-Inv n) in
    let live = Reach-Live r (new_pool-Inv n) (new_pool-Live n) in
    and_then {P = Runs s.submitted} {Q = Drained s} (owner_returns s inv live runs) λ t g.
      and_then {P = λ u. Runs s.submitted u × (u.tasks_ ≡ [])} {Q = Drained s}
        (empty_queue s.submitted t.tasks_ t g refl)
        λ u (h, q).
          and_then {P = Ending s.submitted u.size u.size} {Q = Drained s}
            (all_end s.submitted u.size u.size u (omega arith) h q refl)
            λ v (k, q', z, f).
              (v, Reach.here, ended-Drained s v (k, q', refl, λ i l. f i (omega (arith, z, l))))
