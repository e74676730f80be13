-- ===== src/ThreadPool/Invariant/Moves.antt =====
-- The moves of a worker, and the invariant of a pool before and after each.
use module_flow.Prelude.{
  diff, increment, decrement, diff-suc, increment-diff, decrement-diff, ℕ, suc, ◌+◌, ◌≡◌, refl, sym,
  ap, ◌∙◌, ◌<◌, true, false, none, some, [], ◌∷◌, ◌++◌, count, count-append, arith, append_assoc,
  nat_beq_iff, nat_eq,
}
use module_flow.ThreadPool.Workers.{update, sum_below, sum_below-update}
use module_flow.ThreadPool.{
  Pc, deciding, holding, exited, Pool, wakes, Move, loop_on, loop_end, check_true, check_false,
  leave, take, busy, execute, rest, head,
}
use module_flow.ThreadPool.Invariant.Defs.{is_busy, uncounted, carries, has_lock, Inv}

-- The premises of a move.
abbrev pub Premise : {i : ℕ} {s u : Pool} {p q : Pc} → Move i s p u q → Type 0
Premise {s} (loop_on h) = s.run_ ≡ true
Premise {s} (loop_end h) = s.run_ ≡ false
Premise {s} (check_true h k) = (s.lock_ ≡ none) × (wakes s ≡ true)
Premise {s} (check_false h k) = (s.lock_ ≡ none) × (wakes s ≡ false)
Premise {s} (leave h k) = (s.run_ ≡ false) × (s.tasks_ ≡ [])
Premise {s} (take t ts h) = s.tasks_ ≡ t ∷ ts
Premise _ = Unit

pub premise : {i : ℕ} {s u : Pool} {p q : Pc} (mv : Move i s p u q) → Premise mv
premise (loop_on h) = h
premise (loop_end h) = h
premise (check_true h k) = (h, k)
premise (check_false h k) = (h, k)
premise (leave h k) = (h, k)
premise (take t ts h) = h
premise _ = tt

module _ {s : Pool} (inv : Inv s) (i : ℕ) (lt : i < s.size) where
  move-fifo : {p q : Pc} {u : Pool} → Move i s p u q → u.taken ++ u.tasks_ ≡ u.submitted
  move-fifo (take t ts h) = append_assoc s.taken (t ∷ []) ts ∙ ap (◌++◌ s.taken) (sym h) ∙ inv.fifo
  move-fifo mv = inv.fifo

  -- What a move leaves as it is.
  pub move-frame :
      {p q : Pc} {u : Pool}
      → Move i s p u q
      → (u.size ≡ s.size) × (u.run_ ≡ s.run_) × (u.owner ≡ s.owner) × (u.submitted ≡ s.submitted)
  move-frame (take t ts h) = (refl, refl, refl, refl)
  move-frame mv = (refl, refl, refl, refl)

  move-idle :
      {p q : Pc} {u : Pool}
      → Move i s p u q
      → s.pc i ≡ p
      → u.idle_thr_num_
        ≡ diff s.size (sum_below is_busy s.size (update s.pc i q) + uncounted s.owner)
  move-idle {q} (busy {t}) e =
      ap decrement inv.idle
      ∙ decrement-diff s.size (sum_below is_busy s.size s.pc + uncounted s.owner)
      ∙ ap (diff s.size) (ground (arith, sum_below-update is_busy s.size i s.pc q))
  move-idle {q} rest e =
      ap increment (inv.idle ∙ ap (diff s.size) more)
      ∙ increment-diff s.size (suc fewer)
      ∙ diff-suc s.size fewer
    where
      fewer : ℕ
      fewer = sum_below is_busy s.size (update s.pc i head) + uncounted s.owner

      more : sum_below is_busy s.size s.pc + uncounted s.owner ≡ suc fewer
      more = ground (arith, sum_below-update is_busy s.size i s.pc head)
  move-idle {q} mv e =
      inv.idle ∙ ap (diff s.size) (ground (arith, sum_below-update is_busy s.size i s.pc q))

  move-called :
      (a : ℕ) {p q : Pc} {u : Pool}
      → Move i s p u q
      → s.pc i ≡ p
      → count a u.executed + sum_below (carries a) s.size (update s.pc i q) ≡ count a u.taken
  move-called a {p} {q} (take t ts h) e = ground (
    arith,
    inv.called a,
    sum_below-update (carries a) s.size i s.pc q,
    count-append a s.taken (t ∷ []),
  )
  move-called a {p} {q} (execute {t}) e = ground (
    arith,
    inv.called a,
    sum_below-update (carries a) s.size i s.pc q,
    count-append a s.executed (t ∷ []),
  )
  move-called a {p} {q} mv e =
      ground (arith, inv.called a, sum_below-update (carries a) s.size i s.pc q)

  move-locked :
      {p q : Pc} {u : Pool}
      → Move i s p u q
      → s.pc i ≡ p
      → (k : ℕ) → has_lock (update s.pc i q k) ≡ true
      → u.lock_ ≡ some k
  move-locked (take t ts h) e k w = ground (arith, inv.locked k, inv.locked i, nat_beq_iff i k)
  move-locked mv e k w = ground (arith, premise mv, inv.locked k, inv.locked i, nat_beq_iff i k)

  move-sure :
      {p q : Pc} {u : Pool}
      → Move i s p u q
      → s.pc i ≡ p
      → (k : ℕ) → update s.pc i q k ≡ holding
      → wakes u ≡ true
  move-sure (take t ts h) e k w = ground (arith, inv.locked k, inv.locked i, nat_beq_iff i k)
  move-sure mv e k w = ground (arith, premise mv, inv.sure k, nat_beq_iff i k)

  move-unsure :
      {p q : Pc} {u : Pool}
      → Move i s p u q
      → s.pc i ≡ p
      → (k : ℕ) → update s.pc i q k ≡ deciding
      → u.tasks_ ≡ []
  move-unsure (take t ts h) e k w = ground (arith, inv.locked k, inv.locked i, nat_beq_iff i k)
  move-unsure mv e k w = ground (arith, premise mv, inv.unsure k, nat_beq_iff i k)

  move-ended :
      {p q : Pc} {u : Pool}
      → Move i s p u q
      → s.pc i ≡ p
      → (k : ℕ) → update s.pc i q k ≡ exited
      → u.run_ ≡ false
  move-ended (take t ts h) e k w = ground (arith, inv.ended k, nat_beq_iff i k)
  move-ended mv e k w = ground (arith, premise mv, inv.ended k, nat_beq_iff i k)

  pub move-Inv :
      {q : Pc} {u : Pool} → Move i s (s.pc i) u q → Inv (record u { pc = update s.pc i q })
  move-Inv {q} {u} mv =
      let (size_same, run_same, owner_same, submitted_same) = move-frame mv in
      record {
        fifo = move-fifo mv;
        room = rw size_same inv.room;
        idle = rw (size_same, owner_same) (move-idle mv refl);
        called = λ a. rw size_same (move-called a mv refl);
        unborn = λ k h. ground (arith, inv.unborn k, nat_beq_iff i k, size_same);
        locked = move-locked mv refl;
        sure = move-sure mv refl;
        unsure = move-unsure mv refl;
        ended = move-ended mv refl;
      }
