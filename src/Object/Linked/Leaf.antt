-- ===== src/Object/Linked/Leaf.antt =====
-- ~Object on an object that owns no others, when its DELETE table holds hooks to live objects only.
use module_flow.Prelude.{
  ℕ, suc, ◌≡◌, refl, sym, ap, subst, ◌∙◌, true, false, Option, none, some, [], ◌∷◌, arith, nat_eq,
  if◌then◌else◌, ◌≢◌, ◌⊎◌, All, beq-false, Bool-cases, inl, inr, nat_beq_iff, string_eq,
  Option-cases,
}
use module_flow.Container.HashMap.{has, valueref}
use module_flow.Object.Connections.{Observers, observers, erase_observer}
use module_flow.Object.Heap.{
  Addr, null, Task, Object, Heap, done, and_then, Cmd, Run, write, Environment, plain, manager,
  module_object, Derived, free,
}
use module_flow.Object.Returns.{
  Returns, Returns-and_then, Returns-mono, modify_lem, load_lem, free_lem, write_self, write-other,
}
use module_flow.Object.Signals.{delete_signal, emit_with}
use module_flow.Object.Destroy.{leave_parent, destroy, destroy_with, destroy_base, destroy_derived}
use module_flow.Object.Linked.Defs.{links, is_live, IsHook}
use module_flow.Object.Linked.Sweep.{AllLive, sweep, sweep_lem, run_observers-sweep, strip}
use module_flow.Object.Linked.Same.{Same, leave_parent-Same}
use module_flow.Object.Linked.Leaving.{
  IsLeaf, delete_table, Swept, Leaving, Deletable, Deletable-Leaving,
}

links-strip : (x : Addr) (o : Option Object) → links (strip x o) ≡ erase_observer x (links o)
unfolding erase_observer
links-strip x none = refl
links-strip x (some o) = refl

live-strip : (x : Addr) (o : Option Object) → is_live (strip x o) ≡ is_live o
live-strip x none = refl
live-strip x (some o) = refl

-- `x` is free, and all else has the connections and the liveness that it had.
abbrev Left : Heap → Addr → Heap → Type 0
Left h x h' =
    (h'.cell x ≡ none)
    × ((a : Addr)
        → a ≢ x
        → (links (h'.cell a) ≡ links (h.cell a)) × (is_live (h'.cell a) ≡ is_live (h.cell a)))
    × (h'.calls ≡ h.calls)

module _ (env : Environment) (del : Addr → Cmd (Unit {0})) where
  emit_with-sweep :
      (x : Addr) (h : Heap) (o : Object)
      → h.cell x ≡ some o
      → AllLive h.cell (observers o.connections_ delete_signal)
      → All (IsHook x) (observers o.connections_ delete_signal)
      → emit_with env del x delete_signal h
        ≡ done tt (record h { cell = sweep x (observers o.connections_ delete_signal) h.cell })
  unfolding emit_with
  emit_with-sweep x h o e l k = elim (Bool-cases (has o.connections_ delete_signal)) [
    | inl y ↦ rw (load_lem x h o e, y) (run_observers-sweep env del h x _ l k)
    | inr n ↦
        rw (load_lem x h o e, n) (none_there (observers o.connections_ delete_signal) (empty n))
  ]
    where
      empty : has o.connections_ delete_signal ≡ false → observers o.connections_ delete_signal ≡ []
      empty n = unfold observers has valueref in ground arith

      none_there :
          (m : Observers Task) → m ≡ [] → done tt h ≡ done tt (record h { cell = sweep x m h.cell })
      none_there m q = rw q (unfold sweep in refl)

  pub destroy_derived-leaf :
      (x : Addr) (d : Derived) (h : Heap) → IsLeaf d → destroy_derived env del x d h ≡ done tt h
  unfolding destroy_derived
  destroy_derived-leaf x plain h l = refl
  destroy_derived-leaf x (module_object s) h l = refl
  destroy_derived-leaf x (manager m) h l = absurd l

  -- The object once its derived part is gone.
  abbrev stripped_down : Object → Object
  stripped_down o = record o { derived = plain }

  abbrev demoted : Heap → Addr → Object → Heap
  demoted h x o = record h { cell = write h.cell x (some (stripped_down o)) }

  demoted-links :
      (h : Heap) (x : Addr) (o : Object) (a : Addr)
      → h.cell x ≡ some o
      → (links ((demoted h x o).cell a) ≡ links (h.cell a))
        × (is_live ((demoted h x o).cell a) ≡ is_live (h.cell a))
  unfolding write
  demoted-links h x o a e = ground (arith, nat_beq_iff x a)

  AllLive-demoted :
      (h : Heap) (x : Addr) (o : Object) (m : Observers Task)
      → h.cell x ≡ some o
      → AllLive h.cell m
      → AllLive (demoted h x o).cell m
  AllLive-demoted h x o [] e l = tt
  AllLive-demoted h x o ((a, ts) ∷ m) e l =
      ((demoted-links h x o a e).1 ∙ l.0, AllLive-demoted h x o m e l.1)

  finish :
      (x : Addr) (h : Heap) (o : Object)
      → h.cell x ≡ some o
      → o.derived ≡ plain
      → (o.parent_ ≡ null) ⊎ (is_live (h.cell o.parent_) ≡ true)
      → Returns (and_then (leave_parent env del x o.parent_ h) (λ _. free x)) (λ _. Left h x)
  finish x h o e d p =
      Returns-and_then (leave_parent env del x o.parent_ h) _ (λ _ k. Same h k) _
        (leave_parent-Same env del x o.parent_ h o e d p) λ _ k s. freed k s
    where
      freed : (k : Heap) → Same h k → Returns (free x k) (λ _. Left h x)
      freed k s = elim (Option-cases (k.cell x)) [
        | inl q ↦ absurd (ground (arith, s.0 x))
        | inr (o', q) ↦ rw (free_lem x k o' q) (
          write_self k.cell x none,
          λ a n. rw (write-other k.cell x a none (λ e. n (sym e))) (s.0 a),
          s.1,
        )
      ]

  swept_links :
      (h : Heap) (x : Addr) (o : Object) (m : Observers Task) (a : Addr)
      → h.cell x ≡ some o
      → (links (sweep x m (demoted h x o).cell a)
          ≡ (if has m a then erase_observer x (links (h.cell a)) else links (h.cell a)))
        × (is_live (sweep x m (demoted h x o).cell a) ≡ is_live (h.cell a))
  swept_links h x o m a e = elim (Bool-cases (has m a)) [
    | inl y ↦
        rw (sweep_lem x m (demoted h x o).cell a, y)
          (
            links-strip x ((demoted h x o).cell a)
                ∙ ap (erase_observer x) (demoted-links h x o a e).0,
            live-strip x ((demoted h x o).cell a) ∙ (demoted-links h x o a e).1,
          )
    | inr n ↦ rw (sweep_lem x m (demoted h x o).cell a, n) (demoted-links h x o a e)
  ]

  -- What stands at `x` when its observers have been told.
  told : Addr → Object → Object
  told x o = record o {
    derived = plain;
    connections_ =
        if has (observers o.connections_ delete_signal) x
        then erase_observer x o.connections_
        else o.connections_;
  }

  told_lem :
      (h : Heap) (x : Addr) (o : Object)
      → sweep x (observers o.connections_ delete_signal) (demoted h x o).cell x ≡ some (told x o)
  unfolding told
  told_lem h x o = ground (
    arith,
    sweep_lem x (observers o.connections_ delete_signal) (demoted h x o).cell x,
    write_self h.cell x (some (stripped_down o)),
  )

  no_parent : (x p : Addr) (h : Heap) → p ≡ null → leave_parent env del x p h ≡ done tt h
  unfolding leave_parent
  no_parent x p h e = rw e

  -- ~Object, on an object of any class that is Leaving.
  module _ (x : Addr) (h : Heap) (o : Object) (d : Leaving h x o) where
    m : Observers Task
    m = observers o.connections_ delete_signal

    table : delete_table h x ≡ m
    unfolding m
    table = rw d.stands

    live1 : AllLive (demoted h x o).cell m
    live1 = AllLive-demoted h x o m d.stands (subst (AllLive h.cell) table d.live)

    hooks1 : All (IsHook x) m
    hooks1 = subst (All (IsHook x)) table d.hooks

    -- The store once the observers have been told.
    h2 : Heap
    unfolding m
    h2 = record (demoted h x o) { cell = sweep x m (demoted h x o).cell }

    parent_ok : (o.parent_ ≡ null) ⊎ (is_live (h2.cell o.parent_) ≡ true)
    unfolding h2
    parent_ok = ground (arith, swept_links h x o m o.parent_ d.stands, d.parent_ok)

    destroy_base_lem :
        destroy_base env del x h ≡ and_then (leave_parent env del x o.parent_ h2) (λ _. free x)
    unfolding destroy_base told h2 m
    destroy_base_lem = rw (
      modify_lem x stripped_down h o d.stands,
      emit_with-sweep x (demoted h x o) (stripped_down o)
          (write_self h.cell x (some (stripped_down o))) live1 hooks1,
      load_lem x h2 (told x o) (told_lem h x o),
    )

    pub destroy_base-Swept : Returns (destroy_base env del x h) (λ _ h'. Swept h x h')
    unfolding h2 m told
    destroy_base-Swept = rw destroy_base_lem (
        Returns-mono (and_then (leave_parent env del x o.parent_ h2) (λ _. free x)) (λ _. Left h2 x)
          (λ _. Swept h x) (finish x h2 (told x o) (told_lem h x o) refl parent_ok)
          λ _ k r. record {
            gone = r.0;
            rest = λ a n. rw table (
              ((r.1 a n).0 ∙ (swept_links h x o m a d.stands).0),
              ((r.1 a n).1 ∙ (swept_links h x o m a d.stands).1),
            );
            quiet = r.2;
          })

    -- Without a parent, what is left is this store.
    pub orphaned : Heap
    unfolding h2
    orphaned = record h2 { cell = write h2.cell x none }

    pub destroy_base-orphan : o.parent_ ≡ null → destroy_base env del x h ≡ done tt orphaned
    unfolding orphaned h2 m
    destroy_base-orphan e =
        destroy_base_lem
        ∙ ap (λ (r : Run (Unit {0})). and_then r (λ _. free x)) (no_parent x o.parent_ h2 e)
        ∙ free_lem x h2 (told x o) (told_lem h x o)

    pub orphaned-cell :
        (a : Addr)
        → a ≢ x
        → orphaned.cell a ≡ (if has (delete_table h x) a then strip x (h.cell a) else h.cell a)
    unfolding orphaned h2
    orphaned-cell a n =
        write-other h2.cell x a none (λ e. n (sym e))
        ∙ sweep_lem x m (demoted h x o).cell a
        ∙ rw (table, write-other h.cell x a (some (stripped_down o)) (λ e. n (sym e)))

  -- `delete x`, on an object that is Deletable.
  pub destroy_with-leaf :
      (x : Addr) (h : Heap) (o : Object)
      → Deletable h x o
      → Returns (destroy_with env del x h) (λ _ h'. Swept h x h')
  unfolding destroy_with
  destroy_with-leaf x h o d =
      rw
        (
          beq-false x null d.not_null,
          load_lem x h o d.stands,
          destroy_derived-leaf x o.derived h d.leaf,
        )
        (destroy_base-Swept x h o (Deletable-Leaving d))

-- One level of fuel is enough: no other destructor runs.
pub destroy-leaf :
    (env : Environment) (fuel : ℕ) (x : Addr) (h : Heap) (o : Object)
    → Deletable h x o
    → Returns (destroy env (suc fuel) x h) (λ _ h'. Swept h x h')
unfolding destroy
destroy-leaf env fuel x h o d = destroy_with-leaf env (destroy env fuel) x h o d
