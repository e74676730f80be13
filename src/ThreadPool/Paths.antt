-- ===== src/ThreadPool/Paths.antt =====
-- Sequences of steps of a pool.
use module_flow.Prelude.{ℕ, ◌≡◌, sym, subst, ◌<◌, Bool, beq_self, nat_eq}
use module_flow.ThreadPool.Workers.{update}
use module_flow.ThreadPool.{Pc, Pool, Move, Step, worker, Reach, here, next}

module _ {w : Bool} where
  pub worker_at :
      {s u : Pool} {p q : Pc} (i : ℕ)
      → i < s.size
      → s.pc i ≡ p
      → Move i s p u q
      → Step w s (record u { pc = update s.pc i q })
  worker_at {s} {u} {p} {q} i l e mv = worker i l (subst (λ (x : Pc). Move i s x u q) (sym e) mv)

  pub Reach-trans : {s t u : Pool} → Reach w s t → Reach w t u → Reach w s u
  Reach-trans r here = r
  Reach-trans r (next p st) = next (Reach-trans r p) st

  pub Reach-first : {s t u : Pool} → Step w s t → Reach w t u → Reach w s u
  Reach-first st = Reach-trans (next here st)

pub update_self {ℓ} : {A : Type ℓ} (f : ℕ → A) (i : ℕ) (a : A) → update f i a i ≡ a
update_self f i a = rw (beq_self i)
