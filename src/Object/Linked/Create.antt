-- ===== src/Object/Linked/Create.antt =====
-- The constructor of Object, among linked objects.
use module_flow.Prelude.{
  ◌≡◌, refl, false, Option, none, some, [], arith, ◌==◌, nat_eq, if◌then◌else◌, ◌≢◌, beq_self,
  nat_beq_iff, String, string_eq,
}
use module_flow.Container.HashMap.{find, valueref}
use module_flow.Object.Connections.{observers, slots}
use module_flow.Object.Heap.{
  Addr, null, Object, Heap, write, new_object, Derived, undefined_object_name,
}
use module_flow.Object.Returns.{Returns}
use module_flow.Object.Linked.Defs.{links, is_live, Linked}

-- Nothing is allocated from `next` on, and `next` is no null pointer.
pub record Fresh (h : Heap) : Type 0 where
  pub next_ne_null : h.next ≢ null
  pub unused : h.cell h.next ≡ none

-- A heap with the same connections and the same null pointer is linked like the first.
pub Linked-same :
    (c c' : Addr → Option Object)
    → ((a : Addr) → links (c' a) ≡ links (c a))
    → is_live (c' null) ≡ false
    → Linked c
    → Linked c'
Linked-same c c' e n l = record {
  no_null = n;
  hooked = λ a o s q nn na. rw e (l.hooked a o s (rw e at q) nn na);
  back = λ a o q. rw e (l.back a o (rw e at q));
  hooks = λ a. rw e (l.hooks a);
}

-- The constructor gives the new address, with the name that it was given or, for the empty name,
-- the one for undefined names, with no parent and no connections; other objects stay, and the heap
-- stays linked.
pub new_object_lem :
    (name : String) (d : Derived) (h : Heap)
    → Linked h.cell
    → Fresh h
    → Returns (new_object name d h) (λ a h'.
      (h.cell a ≡ none)
      × (h'.cell a
          ≡ some (record {
            name_ = if name == "" then undefined_object_name else name;
            parent_ = null;
            connections_ = [];
            derived = d;
          }))
      × ((b : Addr) → b ≢ a → h'.cell b ≡ h.cell b)
      × Linked h'.cell)
unfolding new_object write
new_object_lem name d h l f = (
  f.unused,
  ground (arith, beq_self h.next),
  λ b n. ground (arith, nat_beq_iff h.next b),
  Linked-same h.cell _ (λ a. ground (arith, nat_beq_iff h.next a, f.unused))
      (ground (arith, nat_beq_iff h.next null, l.no_null, f.next_ne_null)) l,
)

abbrev pub empty_heap : Heap
empty_heap = record { cell = λ _. none; next = 1; calls = [] }

pub empty_heap-Linked : Linked empty_heap.cell
unfolding slots observers valueref find
empty_heap-Linked = record {
  no_null = refl;
  hooked = λ a o s e nn na. cc;
  back = λ a o e. cc;
  hooks = λ a. tt;
}
