-- ===== src/ThreadPool/Invariant/Steps.antt =====
-- The steps of a pool, and its invariant before and after each.
use module_flow.Prelude.{
  diff, increment, diff-suc, increment-diff, ◌<◌, ◌+◌, ℕ, zero, suc, ◌≡◌, refl, Bool, sym, ap, ◌∙◌,
  true, List, [], ◌∷◌, ◌++◌, arith, append_assoc, nat_beq_iff, inl, inr, Bool-cases, nat_eq, ltb,
  ltb→lt, beq_self,
}
use module_flow.ThreadPool.Workers.{
  update, sum_below, sum_below-rearranged, sum_below-above, sum_below-same, sum_below-suc,
  sum_below-zero,
}
use module_flow.ThreadPool.{
  threadpool_max_num, Pc, head, entering, deciding, holding, exited, OwnerPc, blocked, grown, Pool,
  wake_up, wake, spawned, growing, ready, pushed, stopped, joining, gone, spawn, no_spawn, counted,
  add_thread, Step, worker, push, grow, no_grow, notify_one, notify_nobody, stop, notify_all, join,
  Reach, here, next, new_pool, no_workers,
}
use module_flow.ThreadPool.Invariant.Defs.{is_busy, uncounted, carries, has_lock, Inv}
use module_flow.ThreadPool.Invariant.Moves.{move-Inv}

-- A step of the owner that adds no worker.
module _ {s : Pool} (inv : Inv s) (o : OwnerPc) (e : uncounted s.owner ≡ uncounted o) where
  owner-idle : s.idle_thr_num_ ≡ diff s.size (sum_below is_busy s.size s.pc + uncounted o)
  owner-idle = inv.idle ∙ ap (λ u. diff s.size (sum_below is_busy s.size s.pc + u)) e

  owner-Inv : Inv (record s { owner = o })
  owner-Inv = record {
    fifo = inv.fifo;
    room = inv.room;
    idle = owner-idle;
    called = inv.called;
    unborn = inv.unborn;
    locked = inv.locked;
    sure = inv.sure;
    unsure = inv.unsure;
    ended = inv.ended;
  }

-- A worker more, at the head of its loop, which is not counted yet.
spawn-Inv :
    {s : Pool}
    → Inv s
    → uncounted s.owner ≡ 0
    → s.size < threadpool_max_num
    → Inv (record s { size = s.size + 1; pc = update s.pc s.size head; owner = spawned })
spawn-Inv {s} inv e l = record {
  fifo = inv.fifo;
  room = omega (arith, l);
  idle =
      inv.idle
      ∙ sym (diff-suc s.size (sum_below is_busy s.size s.pc + uncounted s.owner))
      ∙ ap (λ n. diff n (suc (sum_below is_busy s.size s.pc + uncounted s.owner))) (omega arith)
      ∙ ap (diff (s.size + 1)) (
          ground (
            arith,
            e,
            sum_below-suc is_busy s.size (update s.pc s.size head),
            sum_below-above is_busy s.size s.size s.pc head,
            beq_self s.size,
          ));
  called = λ a. ground (
    arith,
    inv.called a,
    sum_below-suc (carries a) s.size (update s.pc s.size head),
    sum_below-above (carries a) s.size s.size s.pc head,
    beq_self s.size,
  );
  unborn = λ k h. ground (arith, inv.unborn k, nat_beq_iff s.size k);
  locked = λ k h. ground (arith, inv.locked k, nat_beq_iff s.size k);
  sure = λ k h. ground (arith, inv.sure k, nat_beq_iff s.size k);
  unsure = λ k h. ground (arith, inv.unsure k, nat_beq_iff s.size k);
  ended = λ k h. ground (arith, inv.ended k, nat_beq_iff s.size k);
}

-- It is counted.
count-Inv :
    {s : Pool} (o : OwnerPc)
    → Inv s
    → s.owner ≡ spawned
    → uncounted o ≡ 0
    → Inv (record s { idle_thr_num_ = increment s.idle_thr_num_; owner = o })
count-Inv {s} o inv e z = record {
  fifo = inv.fifo;
  room = inv.room;
  idle =
      ap increment (inv.idle ∙ ap (diff s.size) more)
      ∙ increment-diff s.size (suc busy)
      ∙ diff-suc s.size busy
      ∙ ap (diff s.size) (omega (arith, z));
  called = inv.called;
  unborn = inv.unborn;
  locked = inv.locked;
  sure = inv.sure;
  unsure = inv.unsure;
  ended = inv.ended;
}
  where
    busy : ℕ
    busy = sum_below is_busy s.size s.pc

    more : busy + uncounted s.owner ≡ suc busy
    more = rw e (omega arith)

-- A worker that leaves its wait.
woken-Inv :
    {s : Pool} → Inv s → (i : ℕ) → s.pc i ≡ blocked → Inv (record s { pc = update s.pc i entering })
woken-Inv {s} inv i b = record {
  fifo = inv.fifo;
  room = inv.room;
  idle =
      inv.idle
      ∙ ap (diff s.size) (
          ap (λ n. n + uncounted s.owner)
            (sym (sum_below-rearranged is_busy s.size i s.pc entering (ap is_busy b))));
  called = λ a.
      rw (sum_below-rearranged (carries a) s.size i s.pc entering (ap (carries a) b))
        (inv.called a);
  unborn = λ k h. ground (arith, inv.unborn k, nat_beq_iff i k);
  locked = λ k h. ground (arith, inv.locked k, nat_beq_iff i k);
  sure = λ k h. ground (arith, inv.sure k, nat_beq_iff i k);
  unsure = λ k h. ground (arith, inv.unsure k, nat_beq_iff i k);
  ended = λ k h. ground (arith, inv.ended k, nat_beq_iff i k);
}

-- Every step of a worker or of the owner keeps the invariant.
pub Step-Inv : {w : Bool} {s t : Pool} → Step w s t → Inv s → Inv t
Step-Inv (worker i lt mv) inv = move-Inv inv i lt mv
Step-Inv (wake_up i y lt b) inv = woken-Inv inv i b
Step-Inv {w} {s} (push t o r l) inv = record {
  fifo = sym (append_assoc s.taken s.tasks_ (t ∷ [])) ∙ ap (λ (xs : List ℕ). xs ++ t ∷ []) inv.fifo;
  room = inv.room;
  idle = owner-idle inv pushed (ap uncounted o);
  called = inv.called;
  unborn = inv.unborn;
  locked = inv.locked;
  sure = λ k h. ground (arith, inv.locked k);
  unsure = λ k h. ground (arith, inv.locked k);
  ended = inv.ended;
}
Step-Inv (grow o h k) inv = owner-Inv inv growing (ap uncounted o)
Step-Inv (no_grow o h) inv = owner-Inv inv grown (ap uncounted o)
Step-Inv (spawn o l) inv = spawn-Inv inv (ap uncounted o) l
Step-Inv (no_spawn o l) inv = owner-Inv inv grown (ap uncounted o)
Step-Inv (counted o) inv = count-Inv grown inv o refl
Step-Inv (notify_one i o lt b) inv = owner-Inv (woken-Inv inv i b) ready (ap uncounted o)
Step-Inv (notify_nobody o h) inv = owner-Inv inv ready (ap uncounted o)
Step-Inv (stop o) inv = record {
  fifo = inv.fifo;
  room = inv.room;
  idle = owner-idle inv stopped (ap uncounted o);
  called = inv.called;
  unborn = inv.unborn;
  locked = inv.locked;
  sure = λ k h. refl;
  unsure = inv.unsure;
  ended = λ k h. refl;
}
Step-Inv {w} {s} (notify_all o) inv = record {
  fifo = inv.fifo;
  room = inv.room;
  idle =
      owner-idle inv joining (ap uncounted o)
      ∙ ap (λ n. diff s.size (n + 0))
          (sym (sum_below-same is_busy s.size (λ i. wake (s.pc i)) s.pc (λ i. wake_busy (s.pc i))));
  called = λ a. omega (
    arith,
    inv.called a,
    sum_below-same (carries a) s.size (λ i. wake (s.pc i)) s.pc (λ i. wake_carries a (s.pc i)),
  );
  unborn = λ k h. rw (inv.unborn k h);
  locked = λ k h. inv.locked k (wake_lock (s.pc k) h);
  sure = λ k h. inv.sure k (wake_to (s.pc k) h);
  unsure = λ k h. inv.unsure k (wake_deciding (s.pc k) h);
  ended = λ k h. inv.ended k (wake_exited (s.pc k) h);
}
  where
    wake_busy : (p : Pc) → is_busy (wake p) ≡ is_busy p
    wake_busy p = ground arith

    wake_carries : (a : ℕ) (p : Pc) → carries a (wake p) ≡ carries a p
    wake_carries a p = ground arith

    wake_lock : (p : Pc) → has_lock (wake p) ≡ true → has_lock p ≡ true
    wake_lock p h = ground arith

    wake_to : (p : Pc) → wake p ≡ holding → p ≡ holding
    wake_to p h = ground arith

    wake_deciding : (p : Pc) → wake p ≡ deciding → p ≡ deciding
    wake_deciding p h = ground arith

    wake_exited : (p : Pc) → wake p ≡ exited → p ≡ exited
    wake_exited p h = ground arith
Step-Inv (join o h) inv = owner-Inv inv gone (ap uncounted o)

add_thread-Inv : (n : ℕ) (s : Pool) → Inv s → uncounted s.owner ≡ 0 → Inv (add_thread n s)
unfolding add_thread
add_thread-Inv zero s inv z = inv
add_thread-Inv (suc n) s inv z = elim (Bool-cases (ltb s.size threadpool_max_num)) [
  | inl y ↦ rw y (
      add_thread-Inv n _
        (count-Inv s.owner (spawn-Inv inv z (ltb→lt s.size threadpool_max_num y)) refl z) z)
  | inr w ↦ rw w (add_thread-Inv n s inv z)
]

pub new_pool-Inv : (n : ℕ) → Inv (new_pool n)
unfolding new_pool
new_pool-Inv n =
    add_thread-Inv n no_workers
      (record {
        fifo = refl;
        room = omega arith;
        idle = rw (sum_below-zero is_busy (λ i. head)) (unfold diff in refl);
        called = λ a. rw (sum_below-zero (carries a) (λ i. head));
        unborn = λ i h. refl;
        locked = λ i h. cc;
        sure = λ i h. cc;
        unsure = λ i h. cc;
        ended = λ i h. cc;
      })
      refl

pub Reach-Inv : {w : Bool} {s t : Pool} → Reach w s t → Inv s → Inv t
Reach-Inv here inv = inv
Reach-Inv (next r st) inv = Step-Inv st (Reach-Inv r inv)
