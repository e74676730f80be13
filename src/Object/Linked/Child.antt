-- ===== src/Object/Linked/Child.antt =====
-- One round of the loop of ~ObjectManager: a child loses its parent and is deleted.
use module_flow.Prelude.{
  suc, ◌≡◌, refl, sym, ap, subst, ◌∙◌, true, false, Option, none, some, arith, nat_eq, ℕ, Bool,
  if◌then◌else◌, ◌≢◌, beq-false, inl, nat_beq_iff, string_eq,
}
use module_flow.Container.HashMap.{has}
use module_flow.Object.Connections.{erase_observer, slots}
use module_flow.Object.Heap.{Addr, null, Object, Heap, done, and_then, Run, write, Environment}
use module_flow.Object.Returns.{Returns, modify_lem, load_lem, write_self, write-other}
use module_flow.Object.Signals.{set_parent}
use module_flow.Object.Destroy.{destroy, destroy_with}
use module_flow.Object.Linked.Defs.{links, is_live, slots_at, Linked}
use module_flow.Object.Linked.Create.{Linked-same}
use module_flow.Object.Linked.Sweep.{strip}
use module_flow.Object.Linked.Leaf.{
  destroy_derived-leaf, orphaned, orphaned-cell, destroy_base-orphan, destroy_base-Swept,
}
use module_flow.Object.Linked.Leaving.{IsLeaf, delete_table, Swept, Deletable, Deletable-Leaving}
use module_flow.Object.Linked.Delete.{Linked-Deletable, swept_Linked, swept_kept}

-- What stands at an address in a later store: an object with the same class and parent, or nothing.
abbrev pub SameClass : Option Object → Option Object → Type 0
SameClass none q = q ≡ none
SameClass (some o) q =
    (o' : Object) × (q ≡ some o') × (o'.derived ≡ o.derived) × (o'.parent_ ≡ o.parent_)

-- A store in which `x` is gone, and nothing else of what the loop looks at has changed.
pub record Gone (h : Heap) (x : Addr) (h' : Heap) : Type 0 where
  pub gone : h'.cell x ≡ none
  pub others : (a : Addr) → a ≢ x → SameClass (h.cell a) (h'.cell a)
  pub kept : (a o : Addr) (s : ℕ) → a ≢ x → o ≢ x → slots_at h'.cell a s o ≡ slots_at h.cell a s o
  pub linked : Linked h'.cell
  pub quiet : h'.calls ≡ h.calls

pub SameClass-strip :
    (x : Addr) (b : Bool) (q : Option Object) → SameClass q (if b then strip x q else q)
SameClass-strip x true none = refl
SameClass-strip x false none = refl
SameClass-strip x true (some o) =
    (record o { connections_ = erase_observer x o.connections_ }, refl, refl, refl)
SameClass-strip x false (some o) = (o, refl, refl, refl)

module _ (env : Environment) (f : ℕ) (h : Heap) (x : Addr) (o : Object) (l : Linked h.cell)
    (e : h.cell x ≡ some o) (leaf : IsLeaf o.derived) where
  orphan : Object
  orphan = record o { parent_ = null }

  -- The store in which `x` has no parent.
  apart : Heap
  unfolding orphan
  apart = record h { cell = write h.cell x (some orphan) }

  apart-links : (a : Addr) → links (apart.cell a) ≡ links (h.cell a)
  unfolding apart orphan write
  apart-links a = ground (arith, nat_beq_iff x a)

  apart-Linked : Linked apart.cell
  unfolding apart orphan
  apart-Linked =
      Linked-same h.cell apart.cell apart-links
        (ap is_live (write-other h.cell x null (some orphan) (λ q. ground (arith, l.no_null)))
          ∙ l.no_null)
        l

  d : Deletable apart x orphan
  unfolding apart orphan
  d =
      Linked-Deletable apart x orphan apart-Linked (write_self h.cell x (some orphan)) leaf
        (inl refl)

  child_round_lem :
      and_then (set_parent x null h) (λ _. destroy env (suc f) x)
      ≡ done tt (orphaned env (destroy env f) x apart orphan (Deletable-Leaving d))
  unfolding set_parent destroy destroy_with apart orphan
  child_round_lem =
      rw
        (
          modify_lem x (λ q. record q { parent_ = null }) h o e,
          beq-false x null d.not_null,
          load_lem x apart orphan d.stands,
          destroy_derived-leaf env (destroy env f) x o.derived apart leaf,
        )
        (destroy_base-orphan env (destroy env f) x apart orphan (Deletable-Leaving d) refl)

  after : Heap
  after = orphaned env (destroy env f) x apart orphan (Deletable-Leaving d)

  after-Swept : Swept apart x after
  unfolding after orphan
  after-Swept =
      subst (λ (r : Run (Unit {0})). Returns r (λ _ h'. Swept apart x h'))
        (destroy_base-orphan env (destroy env f) x apart orphan (Deletable-Leaving d) refl)
        (destroy_base-Swept env (destroy env f) x apart orphan (Deletable-Leaving d))

  apart-other : (a : Addr) → a ≢ x → apart.cell a ≡ h.cell a
  unfolding apart
  apart-other a n = write-other h.cell x a (some orphan) (λ q. n (sym q))

  after-Gone : Gone h x after
  unfolding after apart
  after-Gone = record {
    gone = after-Swept.gone;
    others = λ a n.
        rw
          (
            orphaned-cell env (destroy env f) x apart orphan (Deletable-Leaving d) a n,
            apart-other a n,
          )
          (SameClass-strip x (has (delete_table apart x) a) (h.cell a));
    kept = λ a p s na np.
        swept_kept apart x after apart-Linked after-Swept a p s na np
        ∙ ap (λ (q : Option Object). slots (links q) s p) (apart-other a na);
    linked = swept_Linked apart x after apart-Linked after-Swept (rw d.stands);
    quiet = after-Swept.quiet;
  }

  -- The round comes to an end, and leaves nothing of `x`.
  pub child_round :
      Returns (and_then (set_parent x null h) (λ _. destroy env (suc f) x)) (λ _ h'. Gone h x h')
  unfolding after
  child_round = rw child_round_lem after-Gone
