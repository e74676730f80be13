-- ===== src/Object/Emission.antt =====
-- What `emit` calls where the slots are those of clients that leave the store alone.
pub mod Counts
use module_flow.Prelude.{
  ℕ, ◌≡◌, refl, false, some, List, [], ◌∷◌, arith, ◌==◌, nat_eq, All, Bool-cases, inl, inr,
}
use module_flow.Container.HashMap.{has, find, valueref}
use module_flow.Object.Connections.{Connections, Observers, observers}
use module_flow.Object.Heap.{
  Addr, Object, Heap, Cmd, done, Environment, slot, drop, delete_object, Task,
}
use module_flow.Object.Returns.{load_lem}
use module_flow.Object.Signals.{emit_with, run_observers, run_tasks, run_task}

abbrev pub IsSlot : Task → Type 0
IsSlot (slot k) = Unit
IsSlot (drop s o) = ⊥
IsSlot (delete_object x) = ⊥

-- All tasks of a table are slots of clients.
abbrev pub OnlySlots : Observers Task → Type 0
OnlySlots m = All (λ (e : Addr × List Task). All IsSlot e.1) m

-- The calls, the latest first, after those of a list of slots or of a table.
abbrev pub log_tasks : List Task → List ℕ → List ℕ
log_tasks [] calls = calls
log_tasks (slot k ∷ ts) calls = log_tasks ts (k ∷ calls)
log_tasks (drop s o ∷ ts) calls = log_tasks ts calls
log_tasks (delete_object x ∷ ts) calls = log_tasks ts calls

abbrev pub log_table : Observers Task → List ℕ → List ℕ
log_table [] calls = calls
log_table ((o, ts) ∷ m) calls = log_table m (log_tasks ts calls)

-- Slots of clients return and leave the store alone.
abbrev pub Quiet : Environment → Type 0
Quiet env = (k : ℕ) (h : Heap) → env.callback k h ≡ done tt h

module _ (env : Environment) (del : Addr → Cmd (Unit {0})) (quiet : Quiet env) where
  run_tasks-slots :
      (ts : List Task) (h : Heap)
      → All IsSlot ts
      → run_tasks env del ts h ≡ done tt (record h { calls = log_tasks ts h.calls })
  unfolding run_tasks run_task
  run_tasks-slots [] h a = refl
  run_tasks-slots (slot k ∷ ts) h a =
      rw (quiet k (record h { calls = k ∷ h.calls }))
        (run_tasks-slots ts (record h { calls = k ∷ h.calls }) a.1)
  run_tasks-slots (drop s o ∷ ts) h a = absurd a.0
  run_tasks-slots (delete_object x ∷ ts) h a = absurd a.0

  run_observers-slots :
      (m : Observers Task) (h : Heap)
      → OnlySlots m
      → run_observers env del m h ≡ done tt (record h { calls = log_table m h.calls })
  unfolding run_observers
  run_observers-slots [] h a = refl
  run_observers-slots ((o, ts) ∷ m) h a =
      rw (run_tasks-slots ts h a.0)
        (run_observers-slots m (record h { calls = log_tasks ts h.calls }) a.1)

  pub emit_with_lem :
      (h : Heap) (this : Addr) (o : Object) (s : ℕ)
      → h.cell this ≡ some o
      → OnlySlots (observers o.connections_ s)
      → emit_with env del this s h
        ≡ done tt (record h { calls = log_table (observers o.connections_ s) h.calls })
  unfolding emit_with
  emit_with_lem h this o s e a =
      rw (load_lem this h o e) (elim (Bool-cases (has o.connections_ s)) [
        | inl y ↦ rw y (run_observers-slots (observers o.connections_ s) h a)
        | inr n ↦ rw (n, no_table n)
      ])
    where
      no_table : has o.connections_ s ≡ false → observers o.connections_ s ≡ []
      no_table n = unfold has observers valueref find in ground arith
