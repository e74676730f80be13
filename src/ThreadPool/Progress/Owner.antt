-- ===== src/ThreadPool/Progress/Owner.antt =====
-- The way of the owner of a pool out of a submission.
use module_flow.Prelude.{
  ℕ, zero, suc, pos, ◌≡◌, refl, ◌≢◌, ◌∙◌, ◌<◌, ◌≤◌, Bool, true, false, List, arith, ltb, ltb→lt, ap,
  subst, ◌&&◌, ltb_ℤ, Bool-cases, inl, inr, ◌⊎◌,
}
use module_flow.ThreadPool.{
  threadpool_max_num, Pc, blocked, Pool, OwnerPc, ready, pushed, growing, spawned, grown, stopped,
  joining, gone, Step, grow, no_grow, spawn, no_spawn, counted, notify_one, notify_nobody, here,
}
use module_flow.ThreadPool.Invariant.Defs.{Inv}
use module_flow.ThreadPool.Invariant.Steps.{Step-Inv}
use module_flow.ThreadPool.Progress.Live.{has_stopped, Live, Step-Live}
use module_flow.ThreadPool.Progress.Drain.{Runs, Leads, after}

is_blocked : (p : Pc) → (p ≡ blocked) ⊎ (p ≢ blocked)
is_blocked blocked = inl refl
is_blocked p = inr (ground arith)

-- A worker in the wait, or none.
find_blocked :
    (n : ℕ) (f : ℕ → Pc) → ((i : ℕ) × (i < n) × (f i ≡ blocked)) ⊎ ((i : ℕ) → i < n → f i ≢ blocked)
find_blocked zero f = inr (λ i h. absurd (omega arith))
find_blocked (suc n) f = elim (is_blocked (f n)) [
  | inl b ↦ inl (n, omega arith, b)
  | inr o ↦ elim (find_blocked n f) [
    | inl (i, l, b) ↦ inl (i, omega arith, b)
    | inr h ↦ inr (λ i l e. elim (Bool-cases (ltb i n)) [
      | inl y ↦ h i (ltb→lt i n y) e
      | inr z ↦ o (subst (λ (k : ℕ). f k ≡ blocked) (ground arith) e)
    ])
  ]
]

-- A pool that has not been stopped.
record Open (xs : List ℕ) (s : Pool) : Type 0 where
  inv : Inv s
  live : Live s
  runs : s.run_ ≡ true
  has_all : s.submitted ≡ xs

module _ (xs : List ℕ) where
  abbrev Returned : Pool → Type 0
  Returned s = Leads s (Runs xs)

  step-Open :
      {s t : Pool}
      → Open xs s
      → Step false s t
      → t.run_ ≡ s.run_
      → t.submitted ≡ s.submitted
      → Open xs t
  step-Open h st r e = record {
    inv = Step-Inv st h.inv;
    live = Step-Live st h.inv h.live;
    runs = r ∙ h.runs;
    has_all = e ∙ h.has_all;
  }

  at_rest : (s : Pool) → Open xs s → s.owner ≡ ready → Returned s
  at_rest s h o = (
    s,
    here,
    record { inv = h.inv; live = h.live; runs = h.runs; between_calls = o; has_all = h.has_all },
  )

  from_grown : (s : Pool) → Open xs s → s.owner ≡ grown → Returned s
  from_grown s h o = elim (find_blocked s.size s.pc) [
    | inl (i, l, b) ↦
        let st : Step false s _ = notify_one i o l b in
        after st (at_rest _ (step-Open h st refl refl) refl)
    | inr none_blocked ↦
        let st : Step false s _ = notify_nobody o none_blocked in
        after st (at_rest _ (step-Open h st refl refl) refl)
  ]

  from_growing : (s : Pool) → Open xs s → s.owner ≡ growing → Returned s
  from_growing s h o = elim (Bool-cases (ltb s.size threadpool_max_num)) [
    | inl y ↦
        let st : Step false s _ = spawn o (ltb→lt s.size threadpool_max_num y) in
        let h' = step-Open h st refl refl in
        let st' : Step false _ _ = counted refl in
        after st (after st' (from_grown _ (step-Open h' st' refl refl) refl))
    | inr z ↦
        let st : Step false s _ = no_spawn o (ground arith) in
        after st (from_grown _ (step-Open h st refl refl) refl)
  ]

  from_pushed : (s : Pool) → Open xs s → s.owner ≡ pushed → Returned s
  from_pushed s h o =
      elim (Bool-cases (ltb_ℤ s.idle_thr_num_ (pos 1) && ltb s.size threadpool_max_num)) [
        | inl y ↦
            let st : Step false s _ = grow o (ground arith) (ground arith) in
            after st (from_growing _ (step-Open h st refl refl) refl)
        | inr z ↦
            let st : Step false s _ = no_grow o (either (ltb_ℤ s.idle_thr_num_ (pos 1)) s.size z) in
            after st (from_grown _ (step-Open h st refl refl) refl)
      ]
    where
      either :
          (b : Bool) (n : ℕ)
          → (b && ltb n threadpool_max_num) ≡ false
          → (b ≡ false) ⊎ (threadpool_max_num ≤ n)
      either true n z = inr (ground arith)
      either false n z = inl refl

  from_owner : (o : OwnerPc) (s : Pool) → Open xs s → s.owner ≡ o → Returned s
  from_owner ready s h e = at_rest s h e
  from_owner pushed s h e = from_pushed s h e
  from_owner growing s h e = from_growing s h e
  from_owner spawned s h e =
      let st : Step false s _ = counted e in after st (from_grown _ (step-Open h st refl refl) refl)
  from_owner grown s h e = from_grown s h e
  from_owner stopped s h e = cc (h.live.stop_told (ap has_stopped e), h.runs)
  from_owner joining s h e = cc (h.live.stop_told (ap has_stopped e), h.runs)
  from_owner gone s h e = cc (h.live.stop_told (ap has_stopped e), h.runs)

-- An owner that has not stopped the pool comes back from its call.
pub owner_returns : (s : Pool) → Inv s → Live s → s.run_ ≡ true → Leads s (Runs s.submitted)
owner_returns s inv live r =
    from_owner s.submitted s.owner s (record { inv = inv; live = live; runs = r; has_all = refl })
      refl
