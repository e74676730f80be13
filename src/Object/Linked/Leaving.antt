-- ===== src/Object/Linked/Leaving.antt =====
-- What the end of an object needs, and what it leaves.
use module_flow.Prelude.{◌≡◌, true, none, some, nat_eq, if◌then◌else◌, ◌≢◌, ◌⊎◌, All, string_eq}
use module_flow.Container.HashMap.{has}
use module_flow.Object.Connections.{Observers, observers, erase_observer}
use module_flow.Object.Heap.{Addr, null, Task, Object, Heap, plain, manager, module_object, Derived}
use module_flow.Object.Signals.{delete_signal}
use module_flow.Object.Linked.Defs.{links, is_live, IsHook}
use module_flow.Object.Linked.Sweep.{AllLive}

-- No manager: its destructor deletes no other object by itself.
abbrev pub IsLeaf : Derived → Type 0
IsLeaf plain = Unit
IsLeaf (module_object s) = Unit
IsLeaf (manager m) = ⊥

-- The table of the objects that are told of the end of the object at `x`.
abbrev pub delete_table : Heap → Addr → Observers Task
delete_table h x = observers (links (h.cell x)) delete_signal

-- The heap after `delete x`: `x` is free, each object in its table has lost its connections to `x`,
-- and nothing else about connections or liveness has changed.
pub record Swept (h : Heap) (x : Addr) (h' : Heap) : Type 0 where
  pub gone : h'.cell x ≡ none
  pub rest :
      (a : Addr)
      → a ≢ x
      → (links (h'.cell a) ≡ (
          if has (delete_table h x) a
          then erase_observer x (links (h.cell a))
          else links (h.cell a)))
        × (is_live (h'.cell a) ≡ is_live (h.cell a))
  pub quiet : h'.calls ≡ h.calls

-- What ~Object needs at `x`.
pub record Leaving (h : Heap) (x : Addr) (o : Object) : Type 0 where
  pub stands : h.cell x ≡ some o
  pub parent_ok : (o.parent_ ≡ null) ⊎ (is_live (h.cell o.parent_) ≡ true)
  pub live : AllLive h.cell (delete_table h x)
  pub hooks : All (IsHook x) (delete_table h x)

-- What `delete x` needs.
pub record Deletable (h : Heap) (x : Addr) (o : Object) : Type 0 where
  pub stands : h.cell x ≡ some o
  pub not_null : x ≢ null
  pub leaf : IsLeaf o.derived
  pub parent_ok : (o.parent_ ≡ null) ⊎ (is_live (h.cell o.parent_) ≡ true)
  pub live : AllLive h.cell (delete_table h x)
  pub hooks : All (IsHook x) (delete_table h x)

pub Deletable-Leaving : {h : Heap} {x : Addr} {o : Object} → Deletable h x o → Leaving h x o
Deletable-Leaving d = record {
  stands = d.stands;
  parent_ok = d.parent_ok;
  live = d.live;
  hooks = d.hooks;
}
