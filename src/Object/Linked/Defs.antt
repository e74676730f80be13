-- ===== src/Object/Linked/Defs.antt =====
-- The slots of the objects of a heap, and the invariant that `connect` keeps about them.
use module_flow.Prelude.{ℕ, ◌≡◌, Bool, true, false, Option, none, some, List, [], nat_eq, ◌≢◌, All}
use module_flow.Object.Connections.{Connections, observers, slots, is_some}
use module_flow.Object.Heap.{Addr, null, Task, drop, Object}
use module_flow.Object.Signals.{delete_signal}

-- The connections at an address, none where no object stands.
abbrev pub links : Option Object → Connections Task
links none = []
links (some o) = o.connections_

abbrev pub is_live : Option Object → Bool
is_live none = false
is_live (some o) = true

abbrev pub slots_at : (Addr → Option Object) → Addr → ℕ → Addr → Option (List Task)
slots_at c a s o = slots (links (c a)) s o

abbrev pub connected : (Addr → Option Object) → Addr → ℕ → Addr → Bool
connected c a s o = is_some (slots_at c a s o)

-- An entry of the DELETE table of `a`: it belongs to another object, and its tasks, of which there
-- is one at least, all disconnect `a` from that object.
abbrev pub IsHook : Addr → Addr × List Task → Type 0
IsHook a (o, ts) = (o ≢ a) × (ts ≢ []) × All (λ t. t ≡ drop o a) ts

pub record Linked (c : Addr → Option Object) : Type 0 where
  -- No object stands at the null pointer.
  pub no_null : is_live (c null) ≡ false
  -- An object that lists another as observer of any signal has an entry for it under DELETE.
  pub hooked :
      (a o : Addr) (s : ℕ)
      → connected c a s o ≡ true
      → o ≢ null
      → o ≢ a
      → connected c a delete_signal o ≡ true
  -- Such entries are mutual.
  pub back :
      (a o : Addr) → connected c a delete_signal o ≡ true → connected c o delete_signal a ≡ true
  -- DELETE tables hold nothing else.
  pub hooks : (a : Addr) → All (IsHook a) (observers (links (c a)) delete_signal)
