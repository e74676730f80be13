-- ===== src/ThreadPool/Progress/Drain.antt =====
-- From every state of a pool that runs, a way to a state in which the queue is empty.
use module_flow.Prelude.{
  ℕ, ◌≡◌, refl, ap, subst, sym, ◌∙◌, ◌<◌, true, false, List, [], ◌∷◌, ◌≢◌, arith, nat_eq,
  Option-cases, inl, inr, ◌⊎◌,
}
use module_flow.ThreadPool.Workers.{update}
use module_flow.ThreadPool.{
  Pc, head, entering, blocked, exited, deciding, holding, finished, took, executing, Pool, Move,
  loop_on, check_true, take, busy, execute, rest, ready, Step, Reach, here,
}
use module_flow.ThreadPool.Invariant.Defs.{has_lock, Inv}
use module_flow.ThreadPool.Invariant.Moves.{move-frame, move-Inv}
use module_flow.ThreadPool.Paths.{worker_at, Reach-trans, Reach-first, update_self}
use module_flow.ThreadPool.Progress.Live.{is_awake, has_notified, Live, move-Live}

-- A pool that runs, between the calls of its owner, to which `xs` was submitted.
pub record Runs (xs : List ℕ) (s : Pool) : Type 0 where
  pub inv : Inv s
  pub live : Live s
  pub runs : s.run_ ≡ true
  pub between_calls : s.owner ≡ ready
  pub has_all : s.submitted ≡ xs

-- Without a spurious wake-up, s can come to a state with P.
abbrev pub Leads : Pool → (Pool → Type 0) → Type 0
Leads s P = (u : Pool) × Reach false s u × P u

pub after : {P : Pool → Type 0} {s t : Pool} → Step false s t → Leads t P → Leads s P
after st (u, r, p) = (u, Reach-first st r, p)

pub and_then :
    {P Q : Pool → Type 0} {s : Pool} → Leads s P → ((t : Pool) → P t → Leads t Q) → Leads s Q
and_then (t, r, p) f = let (u, r', q) = f t p in (u, Reach-trans r r', q)

lock_places : (p : Pc) → has_lock p ≡ true → (p ≡ holding) ⊎ (p ≡ deciding)
lock_places holding h = inl refl
lock_places deciding h = inr refl
lock_places head h = cc
lock_places entering h = cc
lock_places blocked h = cc
lock_places (took t) h = cc
lock_places (executing t) h = cc
lock_places finished h = cc
lock_places exited h = cc

has_begun : (s : Pool) (k : ℕ) → Inv s → s.pc k ≢ head → k < s.size
has_begun s k inv n = ground (arith, inv.unborn k)

module _ (xs : List ℕ) where
  pub worker-Runs :
      {s u : Pool} {p q : Pc}
      → Runs xs s
      → (i : ℕ) → i < s.size
      → s.pc i ≡ p
      → Move i s p u q
      → Runs xs (record u { pc = update s.pc i q })
  worker-Runs {s} {u} {p} {q} g i lt e mv =
      let mv' = subst (λ (x : Pc). Move i s x u q) (sym e) mv in
      let (size_same, run_same, owner_same, submitted_same) = move-frame g.inv i lt mv in
      record {
        inv = move-Inv g.inv i lt mv';
        live = move-Live g.inv g.live i lt mv';
        runs = run_same ∙ g.runs;
        between_calls = owner_same ∙ g.between_calls;
        has_all = submitted_same ∙ g.has_all;
      }

  -- The first task in the queue is taken.
  module _ (x : ℕ) (ys : List ℕ) where
    abbrev Taken : Pool → Type 0
    Taken u = Runs xs u × (u.tasks_ ≡ ys)

    from_holding :
        (s : Pool) (i : ℕ)
        → Runs xs s
        → i < s.size
        → s.pc i ≡ holding
        → s.tasks_ ≡ x ∷ ys
        → Leads s Taken
    from_holding s i g lt e q =
        let mv : Move i s holding _ _ = take x ys q in
        after (worker_at i lt e mv) (_, here, (worker-Runs g i lt e mv, refl))

    -- If another worker has the lock, that worker takes the task.
    from_entering :
        (s : Pool) (i : ℕ)
        → Runs xs s
        → i < s.size
        → s.pc i ≡ entering
        → s.tasks_ ≡ x ∷ ys
        → Leads s Taken
    from_entering s i g lt e q = elim (Option-cases s.lock_) [
      | inl l ↦
          let mv : Move i s entering _ _ = check_true l (ground arith) in
          after (worker_at i lt e mv)
            (from_holding _ i (worker-Runs g i lt e mv) lt (update_self s.pc i holding) q)
      | inr (k, l) ↦ elim (lock_places (s.pc k) (g.live.held k l)) [
        | inl e' ↦ from_holding s k g (has_begun s k g.inv (λ h. cc)) e' q
        | inr e' ↦ cc (g.inv.unsure k e')
      ]
    ]

    from_head :
        (s : Pool) (i : ℕ)
        → Runs xs s
        → i < s.size
        → s.pc i ≡ head
        → s.tasks_ ≡ x ∷ ys
        → Leads s Taken
    from_head s i g lt e q =
        let mv : Move i s head _ _ = loop_on g.runs in
        after (worker_at i lt e mv)
          (from_entering _ i (worker-Runs g i lt e mv) lt (update_self s.pc i entering) q)

    from_finished :
        (s : Pool) (i : ℕ)
        → Runs xs s
        → i < s.size
        → s.pc i ≡ finished
        → s.tasks_ ≡ x ∷ ys
        → Leads s Taken
    from_finished s i g lt e q =
        let mv : Move i s finished _ _ = rest in
        after (worker_at i lt e mv)
          (from_head _ i (worker-Runs g i lt e mv) lt (update_self s.pc i head) q)

    from_executing :
        (s : Pool) (i t : ℕ)
        → Runs xs s
        → i < s.size
        → s.pc i ≡ executing t
        → s.tasks_ ≡ x ∷ ys
        → Leads s Taken
    from_executing s i t g lt e q =
        let mv : Move i s (executing t) _ _ = execute in
        after (worker_at i lt e mv)
          (from_finished _ i (worker-Runs g i lt e mv) lt (update_self s.pc i finished) q)

    from_took :
        (s : Pool) (i t : ℕ)
        → Runs xs s
        → i < s.size
        → s.pc i ≡ took t
        → s.tasks_ ≡ x ∷ ys
        → Leads s Taken
    from_took s i t g lt e q =
        let mv : Move i s (took t) _ _ = busy in
        after (worker_at i lt e mv)
          (from_executing _ i t (worker-Runs g i lt e mv) lt (update_self s.pc i (executing t)) q)

    from_place :
        (p : Pc) (s : Pool) (i : ℕ)
        → Runs xs s
        → i < s.size
        → s.pc i ≡ p
        → is_awake p ≡ true
        → s.tasks_ ≡ x ∷ ys
        → Leads s Taken
    from_place head s i g lt e a q = from_head s i g lt e q
    from_place entering s i g lt e a q = from_entering s i g lt e q
    from_place deciding s i g lt e a q = cc (g.inv.unsure i e)
    from_place blocked s i g lt e a q = cc
    from_place holding s i g lt e a q = from_holding s i g lt e q
    from_place (took t) s i g lt e a q = from_took s i t g lt e q
    from_place (executing t) s i g lt e a q = from_executing s i t g lt e q
    from_place finished s i g lt e a q = from_finished s i g lt e q
    from_place exited s i g lt e a q = cc

    take_first : (s : Pool) → Runs xs s → s.tasks_ ≡ x ∷ ys → Leads s Taken
    take_first s g q =
        let (i, lt, a) = g.live.attended g.runs (ap has_notified g.between_calls) (λ z. cc) in
        from_place (s.pc i) s i g lt refl a q

  pub empty_queue :
      (q : List ℕ) (s : Pool)
      → Runs xs s
      → s.tasks_ ≡ q
      → Leads s (λ u. Runs xs u × (u.tasks_ ≡ []))
  empty_queue [] s g e = (s, here, (g, e))
  empty_queue (x ∷ ys) s g e =
      and_then {P = Taken x ys} (take_first x ys s g e) (λ t (h, e'). empty_queue ys t h e')
