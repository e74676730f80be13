-- ===== src/ThreadPool/Progress/Live.antt =====
-- What keeps the tasks of a pool moving: the lock is free or with a worker, a submission leaves at
-- least one worker, and tasks that wait are not left to workers that all sleep.
use module_flow.Prelude.{
  ℕ, zero, suc, diff, pos, ◌+◌, ◌≡◌, refl, ℤ, ◌≢◌, sym, ap, ◌∙◌, ◌<◌, Bool, true, false, some, [],
  arith, nat_beq_iff, nat_eq, ltb_ℤ, inl, inr,
}
use module_flow.ThreadPool.Workers.{update, sum_below, sum_below-zero}
use module_flow.ThreadPool.{
  Pc, entering, blocked, exited, Pool, wake, Move, block, take, OwnerPc, ready, pushed, growing,
  spawned, grown, stopped, joining, gone, Step, worker, wake_up, push, grow, no_grow, spawn,
  no_spawn, counted, notify_one, notify_nobody, stop, notify_all, join, Reach, here, next, new_pool,
}
use module_flow.ThreadPool.Invariant.Defs.{is_busy, has_lock, uncounted, Inv}
use module_flow.ThreadPool.Invariant.Moves.{move-frame, premise}
use module_flow.ThreadPool.Invariant.Steps.{Reach-Inv}
use module_flow.ThreadPool.Idle.{every_pool-Idle}

-- A worker that goes on without a notification.
abbrev pub is_awake : Pc → Bool
is_awake blocked = false
is_awake exited = false
is_awake _ = true

-- Whether the notification for the last submission has been made.
abbrev pub has_notified : OwnerPc → Bool
has_notified ready = true
has_notified _ = false

-- Whether a submission has seen to it that there is a worker.
abbrev has_staff : OwnerPc → Bool
has_staff spawned = true
has_staff grown = true
has_staff _ = false

abbrev pub has_stopped : OwnerPc → Bool
has_stopped stopped = true
has_stopped joining = true
has_stopped gone = true
has_stopped _ = false

abbrev pub Awake : Pool → Type 0
Awake s = (i : ℕ) × (i < s.size) × (is_awake (s.pc i) ≡ true)

pub record Live (s : Pool) : Type 0 where
  pub held : (i : ℕ) → s.lock_ ≡ some i → has_lock (s.pc i) ≡ true
  pub staffed : has_staff s.owner ≡ true → 0 < s.size
  pub stop_told : has_stopped s.owner ≡ true → s.run_ ≡ false
  pub attended : s.run_ ≡ true → has_notified s.owner ≡ true → s.tasks_ ≢ [] → Awake s

-- A move of a worker.
module _ {s : Pool} (inv : Inv s) (live : Live s) (i : ℕ) (lt : i < s.size) where
  move-held :
      {p q : Pc} {u : Pool}
      → Move i s p u q
      → s.pc i ≡ p
      → (k : ℕ) → u.lock_ ≡ some k
      → has_lock (update s.pc i q k) ≡ true
  move-held (take t ts h) e k l = cc
  move-held mv e k l = ground (arith, premise mv, live.held k, nat_beq_iff i k)

  -- A worker that goes to sleep or ends leaves nothing undone.
  move-sleep :
      {p q : Pc} {u : Pool}
      → Move i s p u q
      → s.pc i ≡ p
      → s.run_ ≡ true
      → u.tasks_ ≢ []
      → is_awake q ≡ true
  move-sleep block e r n = absurd (n (inv.unsure i e))
  move-sleep (take t ts h) e r n = refl
  move-sleep mv e r n = ground (arith, premise mv)

  pub move-Live :
      {q : Pc} {u : Pool} → Move i s (s.pc i) u q → Live (record u { pc = update s.pc i q })
  move-Live {q} {u} mv =
      let (size_same, run_same, owner_same, submitted_same) = move-frame inv i lt mv in
      record {
        held = move-held mv refl;
        staffed = rw (size_same, owner_same) live.staffed;
        stop_told = rw (run_same, owner_same) live.stop_told;
        attended = λ r o n. (
          i,
          rw size_same lt,
          ground (arith, move-sleep mv refl (sym run_same ∙ r) n, nat_beq_iff i i),
        );
      }

-- A worker that leaves its wait.
woken-Live :
    {s : Pool}
    → Live s
    → (i : ℕ) → i < s.size
    → s.pc i ≡ blocked
    → Live (record s { pc = update s.pc i entering })
woken-Live {s} live i lt b = record {
  held = λ k h. ground (arith, live.held k, nat_beq_iff i k);
  staffed = live.staffed;
  stop_told = live.stop_told;
  attended = λ r o n. (i, lt, ground (arith, nat_beq_iff i i));
}

-- A step of the owner alone, to a place other than that between its calls.
owner-Live :
    {s : Pool} (o : OwnerPc)
    → Live s
    → (has_staff o ≡ true → 0 < s.size)
    → (has_stopped o ≡ true → s.run_ ≡ false)
    → has_notified o ≡ false
    → Live (record s { owner = o })
owner-Live o live l r n = record {
  held = live.held;
  staffed = l;
  stop_told = r;
  attended = λ y z m. cc;
}

-- A pool without workers has no idle ones.
idle_worker :
    (n : ℕ) (f : ℕ → Pc) (c : ℤ)
    → c ≡ diff n (sum_below is_busy n f + uncounted pushed)
    → ltb_ℤ c (pos 1) ≡ false
    → 0 < n
idle_worker zero f c e h =
    let e' : c ≡ pos 0 = e ∙ (rw (sum_below-zero is_busy f) (unfold diff in refl)) in
    cc (sym h ∙ ap (λ (x : ℤ). ltb_ℤ x (pos 1)) e')
idle_worker (suc n) f c e h = omega arith

awake_unless : (p : Pc) → p ≢ blocked → p ≢ exited → is_awake p ≡ true
awake_unless p b e = ground arith

-- Every step of a worker or of the owner keeps this.
pub Step-Live : {w : Bool} {s t : Pool} → Step w s t → Inv s → Live s → Live t
Step-Live (worker i lt mv) inv live = move-Live inv live i lt mv
Step-Live (wake_up i y lt b) inv live = woken-Live live i lt b
Step-Live (push t o r l) inv live = record {
  held = live.held;
  staffed = λ y. cc;
  stop_told = λ y. cc;
  attended = λ y z m. cc;
}
Step-Live (grow o h k) inv live = owner-Live growing live (λ y. cc) (λ y. cc) refl
Step-Live {w} {s} (no_grow o h) inv live =
    owner-Live grown live
      (λ y. elim h [
        | inl e ↦
            idle_worker s.size s.pc s.idle_thr_num_
              (inv.idle ∙ ap (λ q. diff s.size (sum_below is_busy s.size s.pc + uncounted q)) o) e
        | inr l ↦ omega (arith, l)
      ])
      (λ y. cc) refl
Step-Live {w} {s} (spawn o l) inv live = record {
  held = λ k h. ground (arith, live.held k, inv.unborn k, nat_beq_iff s.size k);
  staffed = λ y. omega arith;
  stop_told = λ y. cc;
  attended = λ y z m. cc;
}
Step-Live (no_spawn o l) inv live = owner-Live grown live (λ y. omega (arith, l)) (λ y. cc) refl
Step-Live (counted o) inv live = record {
  held = live.held;
  staffed = λ y. live.staffed (ap has_staff o);
  stop_told = λ y. cc;
  attended = λ y z m. cc;
}
Step-Live {w} {s} (notify_one i o lt b) inv live =
    let after = woken-Live live i lt b in
    record {
      held = after.held;
      staffed = λ y. cc;
      stop_told = λ y. cc;
      attended = λ r z n. (i, lt, ground (arith, nat_beq_iff i i));
    }
Step-Live {w} {s} (notify_nobody o h) inv live =
    let lt = live.staffed (ap has_staff o) in
    record {
      held = live.held;
      staffed = λ y. cc;
      stop_told = λ y. cc;
      attended = λ r z n. (0, lt, awake_unless (s.pc 0) (h 0 lt) (λ e. cc (inv.ended 0 e)));
    }
Step-Live (stop o) inv live = record {
  held = live.held;
  staffed = λ y. cc;
  stop_told = λ y. refl;
  attended = λ y z m. cc;
}
Step-Live {w} {s} (notify_all o) inv live = record {
  held = λ k h. wake_lock (s.pc k) (live.held k h);
  staffed = λ y. cc;
  stop_told = λ y. live.stop_told (ap has_stopped o);
  attended = λ y z m. cc;
}
  where
    wake_lock : (p : Pc) → has_lock p ≡ true → has_lock (wake p) ≡ true
    wake_lock p h = ground arith
Step-Live (join o h) inv live =
    owner-Live gone live (λ y. cc) (λ y. live.stop_told (ap has_stopped o)) refl

pub Reach-Live : {w : Bool} {s t : Pool} → Reach w s t → Inv s → Live s → Live t
Reach-Live here inv live = live
Reach-Live (next r st) inv live = Step-Live st (Reach-Inv r inv) (Reach-Live r inv live)

pub new_pool-Live : (n : ℕ) → Live (new_pool n)
new_pool-Live n =
    let idle = every_pool-Idle n in
    record {
      held = λ i h. cc idle.unlocked;
      staffed = λ y. cc (ap has_staff idle.between_calls);
      stop_told = λ y. cc (ap has_stopped idle.between_calls);
      attended = λ r o m. absurd (m idle.no_tasks);
    }
