-- ===== src/Object/Linked/Delete.antt =====
-- The end of an object among linked objects.
use module_flow.Prelude.{
  ℕ, suc, ◌≡◌, refl, sym, ◌∙◌, true, false, Option, none, some, List, [], ◌∷◌, arith, ◌==◌, nat_eq,
  ◌&&◌, if◌then◌else◌, ◌≢◌, ◌⊎◌, All, beq_self, Bool-cases, inl, inr, nat_beq_iff, string_eq,
  Option-cases,
}
use module_flow.Container.HashMap.{has, find, valueref}
use module_flow.Container.HashMap.Laws.{All-erase}
use module_flow.Object.Connections.{
  Observers, observers, slots, is_some, slots-erase_observer, observers-erase_observer,
}
use module_flow.Object.Heap.{Addr, null, Task, Object, Heap, Environment}
use module_flow.Object.Returns.{Returns, Returns-mono}
use module_flow.Object.Signals.{delete_signal}
use module_flow.Object.Destroy.{destroy}
use module_flow.Object.Linked.Defs.{links, is_live, slots_at, connected, IsHook, Linked}
use module_flow.Object.Linked.Sweep.{AllLive}
use module_flow.Object.Linked.Leaf.{destroy-leaf}
use module_flow.Object.Linked.Leaving.{IsLeaf, delete_table, Swept, Deletable, Leaving}

-- What is left of the connections once `x` is deleted.
pub record Deleted (h : Heap) (x : Addr) (h' : Heap) : Type 0 where
  pub gone : h'.cell x ≡ none
  -- No object has a slot for `x` any more, for any signal.
  pub forgotten : (a : Addr) (s : ℕ) → slots_at h'.cell a s x ≡ none
  -- The slots between the others are as before.
  pub kept : (a o : Addr) (s : ℕ) → a ≢ x → o ≢ x → slots_at h'.cell a s o ≡ slots_at h.cell a s o
  pub others : (a : Addr) → a ≢ x → is_live (h'.cell a) ≡ is_live (h.cell a)
  pub linked : Linked h'.cell
  pub quiet : h'.calls ≡ h.calls

pub has-connected :
    (c : Addr → Option Object) (a : Addr) (s : ℕ) (o : Addr)
    → has (observers (links (c a)) s) o ≡ connected c a s o
has-connected c a s o = unfold has slots in ground arith

has-head : (m : Observers Task) (o : Addr) (ts : List Task) → has ((o, ts) ∷ m) o ≡ true
unfolding has find
has-head m o ts = ground (arith, beq_self o)

has-tail :
    (m : Observers Task) (o a : Addr) (ts : List Task) → has m a ≡ true → has ((o, ts) ∷ m) a ≡ true
unfolding has find
has-tail m o a ts e = ground arith

pub AllLive-entries :
    (c : Addr → Option Object) (m : Observers Task)
    → ((o : Addr) → has m o ≡ true → is_live (c o) ≡ true)
    → AllLive c m
AllLive-entries c [] f = tt
AllLive-entries c ((o, ts) ∷ m) f =
    (f o (has-head m o ts), AllLive-entries c m λ a e. f a (has-tail m o a ts e))

pub connected-live :
    (c : Addr → Option Object) (a o : Addr) (s : ℕ)
    → connected c a s o ≡ true
    → is_live (c a) ≡ true
connected-live c a o s e = elim (Option-cases (c a)) [
  | inl q ↦ absurd (no_slots (c a) q e)
  | inr (ob, q) ↦ rw q
]
  where
    no_slots : (b : Option Object) → b ≡ none → is_some (slots (links b) s o) ≡ true → ⊥
    no_slots b q e = unfold slots observers valueref find in ground arith

-- In a heap of linked objects, ~Object has what it needs at an object whose parent is alive.
pub Linked-Leaving :
    (h : Heap) (x : Addr) (o : Object)
    → Linked h.cell
    → h.cell x ≡ some o
    → (o.parent_ ≡ null) ⊎ (is_live (h.cell o.parent_) ≡ true)
    → Leaving h x o
Linked-Leaving h x o l e p = record {
  stands = e;
  parent_ok = p;
  live = AllLive-entries h.cell (delete_table h x) λ a q.
      connected-live h.cell a x delete_signal
        (l.back x a (sym (has-connected h.cell x delete_signal a) ∙ q));
  hooks = l.hooks x;
}

-- If the object owns no others it is Deletable.
pub Linked-Deletable :
    (h : Heap) (x : Addr) (o : Object)
    → Linked h.cell
    → h.cell x ≡ some o
    → IsLeaf o.derived
    → (o.parent_ ≡ null) ⊎ (is_live (h.cell o.parent_) ≡ true)
    → Deletable h x o
Linked-Deletable h x o l e leaf p =
    let d = Linked-Leaving h x o l e p in
    record {
      stands = e;
      not_null = λ q. ground (arith, l.no_null);
      leaf = leaf;
      parent_ok = p;
      live = d.live;
      hooks = d.hooks;
    }

module _ (h : Heap) (x : Addr) (h' : Heap) (l : Linked h.cell) (w : Swept h x h') where
  swept_slots :
      (a o : Addr) (s : ℕ)
      → a ≢ x
      → slots_at h'.cell a s o
        ≡ (if connected h.cell x delete_signal a && x == o then none else slots_at h.cell a s o)
  swept_slots a o s n = ground (
    arith,
    w.rest a n,
    has-connected h.cell x delete_signal a,
    slots-erase_observer x (links (h.cell a)) s o,
  )

  swept_none : (s : ℕ) (o : Addr) → slots_at h'.cell x s o ≡ none
  swept_none s o = rw w.gone (unfold slots observers valueref find in refl)

  swept_forgotten : is_live (h.cell x) ≡ true → (a : Addr) (s : ℕ) → slots_at h'.cell a s x ≡ none
  swept_forgotten live a s = elim (Bool-cases (a == x)) [
    | inl e ↦ rw ((nat_beq_iff a x).0 e) (swept_none s x)
    | inr n ↦
        ground (arith, swept_slots a x s (λ e. ground arith), l.hooked a x s, l.back a x, l.no_null)
  ]

  pub swept_kept :
      (a o : Addr) (s : ℕ) → a ≢ x → o ≢ x → slots_at h'.cell a s o ≡ slots_at h.cell a s o
  swept_kept a o s n k = ground (arith, swept_slots a o s n, nat_beq_iff x o)

  -- An observer that is still listed is not `x`, nor is the object that lists it.
  survivors :
      is_live (h.cell x) ≡ true
      → (a o : Addr) (s : ℕ) → connected h'.cell a s o ≡ true
      → (a ≢ x) × (o ≢ x)
  survivors live a o s e =
      (λ q. ground (arith, swept_none s o), λ q. ground (arith, swept_forgotten live a s))

  swept_hooks : (a : Addr) → All (IsHook a) (observers (links (h'.cell a)) delete_signal)
  swept_hooks a = elim (Bool-cases (a == x)) [
    | inl e ↦ rw ((nat_beq_iff a x).0 e) (rw w.gone (unfold observers valueref find in tt))
    | inr n ↦ elim (Bool-cases (has (delete_table h x) a)) [
      | inl y ↦
          rw ((w.rest a (ne n)).0, y, observers-erase_observer x (links (h.cell a)) delete_signal)
            (All-erase (IsHook a) x _ (l.hooks a))
      | inr z ↦ rw ((w.rest a (ne n)).0, z) (l.hooks a)
    ]
  ]
    where
      ne : (a == x) ≡ false → a ≢ x
      ne n e = ground (arith, nat_beq_iff a x)

  pub swept_Linked : is_live (h.cell x) ≡ true → Linked h'.cell
  swept_Linked live = record {
    no_null = ground (arith, w.rest null, l.no_null, nat_beq_iff null x);
    hooked = λ a o s e nn na.
        let (nx, mx) = survivors live a o s e in
        ground (arith, swept_kept a o s nx mx, swept_kept a o delete_signal nx mx, l.hooked a o s);
    back = λ a o e.
        let (nx, mx) = survivors live a o delete_signal e in
        ground (
          arith,
          swept_kept a o delete_signal nx mx,
          swept_kept o a delete_signal mx nx,
          l.back a o,
        );
    hooks = swept_hooks;
  }

  swept_Deleted : is_live (h.cell x) ≡ true → Deleted h x h'
  swept_Deleted live = record {
    gone = w.gone;
    forgotten = swept_forgotten live;
    kept = swept_kept;
    others = λ a n. (w.rest a n).1;
    linked = swept_Linked live;
    quiet = w.quiet;
  }

-- In a heap of linked objects, `delete x` returns for an object that is no manager and whose
-- parent, if it has one, is alive: no task reads through a dangling pointer. Afterwards `x` is
-- free, no object lists it as an observer of any signal, all slots between other objects are as
-- before, the other objects live on, no slot of a client was called, and the heap is linked again.
pub destroy-Deleted :
    (env : Environment) (fuel : ℕ) (h : Heap) (x : Addr) (o : Object)
    → Linked h.cell
    → h.cell x ≡ some o
    → IsLeaf o.derived
    → (o.parent_ ≡ null) ⊎ (is_live (h.cell o.parent_) ≡ true)
    → Returns (destroy env (suc fuel) x h) (λ _ h'. Deleted h x h')
destroy-Deleted env fuel h x o l e leaf p =
    Returns-mono (destroy env (suc fuel) x h) (λ _ h'. Swept h x h') (λ _ h'. Deleted h x h')
      (destroy-leaf env fuel x h o (Linked-Deletable h x o l e leaf p))
      λ _ h' w. swept_Deleted h x h' l w (rw e)
