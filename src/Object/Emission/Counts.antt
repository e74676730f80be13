-- ===== src/Object/Emission/Counts.antt =====
-- How often an emission calls a slot, and what connecting and disconnecting change in that.
use module_flow.Prelude.{
  ℕ, ◌+◌, ◌≡◌, ◌∙◌, refl, sym, ap, true, some, subst, Option-cases, List, [], ◌∷◌, ◌++◌, arith,
  ◌==◌, nat_eq, ◌≢◌, ◌⊎◌, All, Bool-cases, inl, inr, count, indicator, beq_self,
}
use module_flow.Container.HashMap.{find, insert_one, erase}
use module_flow.Container.HashMap.Laws.{All-insert_one, All-erase}
use module_flow.Object.Connections.{Observers, observers, slots, tasks_of}
use module_flow.Object.Heap.{
  Addr, null, Object, Heap, Cmd, Environment, slot, drop, delete_object, Task, and_then,
}
use module_flow.Object.Returns.{Returns, Returns-and_then, Returns-mono}
use module_flow.Object.Signals.{delete_signal, connect, disconnect_signal}
use module_flow.Object.Destroy.{destroy, emit}
use module_flow.Object.Linked.Defs.{links, is_live, Linked}
use module_flow.Object.Linked.Connect.{Connected, connect-Connected}
use module_flow.Object.Linked.Disconnect.{Disconnected, disconnect_signal-Disconnected}
use module_flow.Object.Emission.{IsSlot, OnlySlots, log_tasks, log_table, Quiet, emit_with_lem}

-- How often a slot stands in a list of tasks or in a table.
abbrev task_count : ℕ → List Task → ℕ
task_count j [] = 0
task_count j (slot k ∷ ts) = indicator j k + task_count j ts
task_count j (drop s o ∷ ts) = task_count j ts
task_count j (delete_object x ∷ ts) = task_count j ts

abbrev table_count : ℕ → Observers Task → ℕ
table_count j [] = 0
table_count j ((o, ts) ∷ m) = task_count j ts + table_count j m

count-log_tasks :
    (j : ℕ) (ts : List Task) (calls : List ℕ)
    → count j (log_tasks ts calls) ≡ task_count j ts + count j calls
count-log_tasks j [] calls = omega arith
count-log_tasks j (slot k ∷ ts) calls =
    let rest = count-log_tasks j ts (k ∷ calls) in omega (arith, rest)
count-log_tasks j (drop s o ∷ ts) calls = count-log_tasks j ts calls
count-log_tasks j (delete_object x ∷ ts) calls = count-log_tasks j ts calls

count-log_table :
    (j : ℕ) (m : Observers Task) (calls : List ℕ)
    → count j (log_table m calls) ≡ table_count j m + count j calls
count-log_table j [] calls = omega arith
count-log_table j ((o, ts) ∷ m) calls =
    let rest = count-log_table j m (log_tasks ts calls) in
    let first = count-log_tasks j ts calls in omega (arith, rest, first)

task_count-append :
    (j k : ℕ) (ts : List Task) → task_count j (ts ++ slot k ∷ []) ≡ task_count j ts + indicator j k
task_count-append j k [] = omega arith
task_count-append j k (slot i ∷ ts) = let rest = task_count-append j k ts in omega (arith, rest)
task_count-append j k (drop s o ∷ ts) = task_count-append j k ts
task_count-append j k (delete_object x ∷ ts) = task_count-append j k ts

table_count-insert_one :
    (j n : ℕ) (o : Addr) (us : List Task) (m : Observers Task)
    → task_count j us ≡ task_count j (tasks_of (find o m)) + n
    → table_count j (insert_one o us m) ≡ table_count j m + n
unfolding insert_one find
table_count-insert_one j n o us [] e = omega (arith, e)
table_count-insert_one j n o us ((p, ts) ∷ m) e =
    ground (arith, e, table_count-insert_one j n o us m)

IsSlot-append : (k : ℕ) (ts : List Task) → All IsSlot ts → All IsSlot (ts ++ slot k ∷ [])
IsSlot-append k [] a = (tt, tt)
IsSlot-append k (t ∷ ts) a = (a.0, IsSlot-append k ts a.1)

OnlySlots-find : (o : Addr) (m : Observers Task) → OnlySlots m → All IsSlot (tasks_of (find o m))
unfolding find
OnlySlots-find o [] a = tt
OnlySlots-find o ((p, ts) ∷ m) a = elim (Bool-cases (p == o)) [
  | inl y ↦ rw y a.0
  | inr n ↦ rw n (OnlySlots-find o m a.1)
]

-- Erasing an observer erases what was entered for it.
erase-insert_one :
    (o : Addr) (ts : List Task) (m : Observers Task) → erase o (insert_one o ts m) ≡ erase o m
unfolding erase insert_one
erase-insert_one o ts [] = ground (arith, beq_self o)
erase-insert_one o ts ((p, us) ∷ m) = elim (Bool-cases (p == o)) [
  | inl y ↦ rw (y, y) refl
  | inr n ↦ rw (n, n) (ap (λ r. (p, us) ∷ r) (erase-insert_one o ts m))
]

-- An emission, where slots of clients alone are connected.
emit_lem :
    (env : Environment) (f : ℕ) (h : Heap) (a : Addr) (s : ℕ)
    → Quiet env
    → is_live (h.cell a) ≡ true
    → OnlySlots (observers (links (h.cell a)) s)
    → Returns
        (emit env f a s h)
        (λ _ h'. h'.calls ≡ log_table (observers (links (h.cell a)) s) h.calls)
unfolding emit
emit_lem env f h a s quiet live only = elim (Option-cases (h.cell a)) [
  | inl e ↦ absurd (cc)
  | inr (o, e) ↦
      rw
        (emit_with_lem env (destroy env f) quiet h a o s e
          (subst (λ c. OnlySlots (observers (links c) s)) e only))
        (rw e refl)
]

-- In a heap of linked objects, let an object have slots of clients only for a signal other than
-- DELETE, let an observer be alive or null, and let the clients leave the store alone. Then emitting
-- the signal returns. Connecting a slot of the observer first calls that slot once more than without,
-- and every other as often. Connecting it and disconnecting the observer again before the emission
-- calls every slot as often as disconnecting the observer alone.
pub connect-emit :
    (env : Environment) (f : ℕ) (h : Heap) (a : Addr) (q : Object) (s : ℕ) (o : Addr) (k : ℕ)
    → Quiet env
    → Linked h.cell
    → h.cell a ≡ some q
    → OnlySlots (observers q.connections_ s)
    → s ≢ delete_signal
    → (o ≡ null) ⊎ (is_live (h.cell o) ≡ true)
    → Returns (emit env f a s h) (λ _ h0.
      Returns
        (and_then (connect a s o (slot k) h) (λ _. emit env f a s))
        (λ _ h1. (j : ℕ) → count j h1.calls ≡ count j h0.calls + indicator j k))
      × Returns (and_then (disconnect_signal a s o h) (λ _. emit env f a s)) (λ _ h0.
        Returns
          (and_then
            (connect a s o (slot k) h)
            (λ _ h'. and_then (disconnect_signal a s o h') (λ _. emit env f a s)))
          (λ _ h1. (j : ℕ) → count j h1.calls ≡ count j h0.calls))
unfolding emit slots
connect-emit env f h a q s o k quiet l e only n w = (
  rw (emit_with_lem env (destroy env f) quiet h a q s e only) (
      after_connect (emit env f a s) _ λ h1 c.
        Returns-mono (emit env f a s h1) _ _
          (emit_lem env f h1 a s quiet (c.alive a ∙ live) (only_with h1 c))
          λ _ h2 r j. more h1 h2 c r j),
  Returns-mono (and_then (disconnect_signal a s o h) (λ _. emit env f a s)) _ _
      (after_disconnect h l live refl refl)
      λ _ h0 r0.
        after_connect (λ h'. and_then (disconnect_signal a s o h') (λ _. emit env f a s)) _
          λ h1 c.
            Returns-mono (and_then (disconnect_signal a s o h1) (λ _. emit env f a s)) _ _
              (after_disconnect h1 c.linked (c.alive a ∙ live)
                (ap (erase o) c.table ∙ erase-insert_one o added old) c.quiet)
              λ _ h2 r j. ap (count j) (r ∙ sym r0),
)
  where
    live : is_live (h.cell a) ≡ true
    live = rw e refl

    old : Observers Task
    old = observers (links (h.cell a)) s

    added : List Task
    added = tasks_of (find o old) ++ slot k ∷ []

    only_old : OnlySlots old
    only_old = rw e only

    after_connect :
        (c : Cmd (Unit {0})) (Q : Unit {0} → Heap → Type 0)
        → ((h1 : Heap) → Connected h a s o (slot k) h1 → Returns (c h1) Q)
        → Returns (and_then (connect a s o (slot k) h) (λ _. c)) Q
    after_connect c Q next =
        Returns-and_then (connect a s o (slot k) h) _ (λ _. Connected h a s o (slot k)) Q
          (connect-Connected h a s o (slot k) l n live w) λ _ h1 d. next h1 d

    after_disconnect :
        (h1 : Heap)
        → Linked h1.cell
        → is_live (h1.cell a) ≡ true
        → erase o (observers (links (h1.cell a)) s) ≡ erase o old
        → h1.calls ≡ h.calls
        → Returns
            (and_then (disconnect_signal a s o h1) (λ _. emit env f a s))
            (λ _ h2. h2.calls ≡ log_table (erase o old) h.calls)
    after_disconnect h1 l1 live1 same calls =
        Returns-and_then (disconnect_signal a s o h1) _ (λ _. Disconnected h1 a s o) _
          (disconnect_signal-Disconnected h1 a s o l1 n live1)
          λ _ h2 d.
            Returns-mono (emit env f a s h2) _ _
              (emit_lem env f h2 a s quiet (d.alive a ∙ live1) (
                rw (d.table, same)
                  (All-erase (λ (e' : Addr × List Task). All IsSlot e'.1) o old only_old)))
              λ _ h3 r. r ∙ rw (d.table, same, d.quiet, calls) refl

    only_with :
        (h1 : Heap) → Connected h a s o (slot k) h1 → OnlySlots (observers (links (h1.cell a)) s)
    only_with h1 c = rw c.table (
        All-insert_one (λ (e' : Addr × List Task). All IsSlot e'.1) o added old
          (IsSlot-append k _ (OnlySlots-find o old only_old)) only_old)

    more :
        (h1 h2 : Heap)
        → Connected h a s o (slot k) h1
        → h2.calls ≡ log_table (observers (links (h1.cell a)) s) h1.calls
        → (j : ℕ)
        → count j h2.calls
          ≡ count j (log_table (observers q.connections_ s) h.calls) + indicator j k
    more h1 h2 c r j =
        let old_is : old ≡ observers q.connections_ s = rw e refl in
        let now =
          ap (count j) (r ∙ rw (c.table, c.quiet) refl)
          ∙ count-log_table j (insert_one o added old) h.calls in
        let then_ = count-log_table j (observers q.connections_ s) h.calls in
        let added_one =
          table_count-insert_one j (indicator j k) o added old
            (task_count-append j k (tasks_of (find o old))) in
        let tables : table_count j old ≡ table_count j (observers q.connections_ s) =
          ap (table_count j) old_is in
        omega (arith, now, then_, added_one, tables)
