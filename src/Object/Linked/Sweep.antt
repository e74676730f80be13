-- ===== src/Object/Linked/Sweep.antt =====
-- What the DELETE signal of an object does when all of its tasks are hooks: each object that has
-- one loses its connections to the object that goes.
use mathlib.Core.Path.{fun_ext}
use module_flow.Prelude.{
  ◌≡◌, refl, ◌∙◌, true, Option, none, some, List, [], ◌∷◌, arith, ◌==◌, nat_eq, if◌then◌else◌, ◌≢◌,
  All, beq_self, Bool-cases, inl, inr, nat_beq_iff,
}
use module_flow.Container.HashMap.{has}
use module_flow.Object.Connections.{Observers, erase_observer, erase_observer_idem}
use module_flow.Object.Heap.{Addr, Task, drop, Object, Heap, done, Cmd, modify, write, Environment}
use module_flow.Object.Signals.{disconnect, run_tasks, run_observers}
use module_flow.Object.Linked.Defs.{is_live, IsHook}

-- An object without its connections to `x`.
abbrev pub strip : Addr → Option Object → Option Object
strip x none = none
strip x (some o) = some (record o { connections_ = erase_observer x o.connections_ })

pub strip_idem : (x : Addr) (o : Option Object) → strip x (strip x o) ≡ strip x o
strip_idem x none = refl
strip_idem x (some o) = ground (arith, erase_observer_idem x o.connections_)

pub strip_at : Addr → (Addr → Option Object) → Addr → (Addr → Option Object)
strip_at x c o = write c o (strip x (c o))

pub strip_at_lem :
    (x : Addr) (c : Addr → Option Object) (o a : Addr)
    → strip_at x c o a ≡ (if o == a then strip x (c a) else c a)
unfolding strip_at write
strip_at_lem x c o a = elim (Bool-cases (o == a)) [
  | inl q ↦ rw ((nat_beq_iff o a).0 q) (rw (beq_self a))
  | inr q ↦ ground arith
]

strip_at_idem :
    (x : Addr) (c : Addr → Option Object) (o : Addr)
    → strip_at x (strip_at x c o) o ≡ strip_at x c o
strip_at_idem x c o = fun_ext λ a.
    ground (arith, strip_at_lem x (strip_at x c o) o a, strip_at_lem x c o a, strip_idem x (c a))

-- All the objects that a table has entries for lose their connections to `x`.
unfoldable pub sweep : Addr → Observers Task → (Addr → Option Object) → Addr → Option Object
unfolding strip_at
sweep x [] c = c
sweep x ((o, ts) ∷ m) c = sweep x m (strip_at x c o)

pub sweep_lem :
    (x : Addr) (m : Observers Task) (c : Addr → Option Object) (a : Addr)
    → sweep x m c a ≡ (if has m a then strip x (c a) else c a)
unfolding sweep has
sweep_lem x [] c a = refl
sweep_lem x ((o, ts) ∷ m) c a =
    ground (arith, sweep_lem x m (strip_at x c o) a, strip_at_lem x c o a, strip_idem x (c a))

pub strip_at-live :
    (x : Addr) (c : Addr → Option Object) (o a : Addr) → is_live (strip_at x c o a) ≡ is_live (c a)
strip_at-live x c o a = ground (arith, strip_at_lem x c o a)

-- The entries of a table all belong to live objects.
abbrev pub AllLive : (Addr → Option Object) → Observers Task → Type 0
AllLive c [] = Unit
AllLive c ((o, ts) ∷ m) = (is_live (c o) ≡ true) × AllLive c m

AllLive-strip_at :
    (x : Addr) (c : Addr → Option Object) (o : Addr) (m : Observers Task)
    → AllLive c m
    → AllLive (strip_at x c o) m
AllLive-strip_at x c o [] l = tt
AllLive-strip_at x c o ((a, ts) ∷ m) l = (strip_at-live x c o a ∙ l.0, AllLive-strip_at x c o m l.1)

pub disconnect_lem :
    (h : Heap) (o x : Addr)
    → is_live (h.cell o) ≡ true
    → disconnect o x h ≡ done tt (record h { cell = strip_at x h.cell o })
unfolding disconnect modify strip_at
disconnect_lem h o x l = ground arith

module _ (env : Environment) (del : Addr → Cmd (Unit {0})) where
  more_tasks :
      (h : Heap) (o x : Addr) (ts : List Task)
      → is_live (h.cell o) ≡ true
      → All (λ t. t ≡ drop o x) ts
      → run_tasks env del ts (record h { cell = strip_at x h.cell o })
        ≡ done tt (record h { cell = strip_at x h.cell o })
  unfolding run_tasks
  more_tasks h o x [] l d = refl
  more_tasks h o x (t ∷ ts) l (e, d) =
      rw
        (
          e,
          disconnect_lem (record h { cell = strip_at x h.cell o }) o x
              (strip_at-live x h.cell o o ∙ l),
          strip_at_idem x h.cell o,
        )
        (more_tasks h o x ts l d)

  pub hook_tasks :
      (h : Heap) (o x : Addr) (ts : List Task)
      → is_live (h.cell o) ≡ true
      → ts ≢ []
      → All (λ t. t ≡ drop o x) ts
      → run_tasks env del ts h ≡ done tt (record h { cell = strip_at x h.cell o })
  unfolding run_tasks
  hook_tasks h o x [] l n d = absurd (n refl)
  hook_tasks h o x (t ∷ ts) l n (e, d) = rw (e, disconnect_lem h o x l) (more_tasks h o x ts l d)

  -- A table of hooks to live objects runs to the end, and sweeps.
  pub run_observers-sweep :
      (h : Heap) (x : Addr) (m : Observers Task)
      → AllLive h.cell m
      → All (IsHook x) m
      → run_observers env del m h ≡ done tt (record h { cell = sweep x m h.cell })
  unfolding run_observers sweep
  run_observers-sweep h x [] l k = refl
  run_observers-sweep h x ((o, ts) ∷ m) (lo, lm) (hook, k) =
      rw (hook_tasks h o x ts lo hook.1 hook.2) (
        run_observers-sweep (record h { cell = strip_at x h.cell o }) x m
          (AllLive-strip_at x h.cell o m lm) k)
