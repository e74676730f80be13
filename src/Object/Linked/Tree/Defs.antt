-- ===== src/Object/Linked/Tree/Defs.antt =====
-- A tree of objects, each manager with what it owns, and the store in which all of them are gone.
use module_flow.Prelude.{
  none, ℕ, suc, ◌≡◌, Bool, true, false, some, [], ◌∷◌, ◌==◌, nat_eq, ◌||◌, ltb, if◌then◌else◌,
  String, string_eq,
}
use module_flow.Container.HashMap.{HashMap, find}
use module_flow.Object.Heap.{Addr, Object, Heap, Derived, plain, manager, module_object}
use module_flow.Object.Linked.Defs.{slots_at, Linked}
use module_flow.Object.Linked.Child.{SameClass}

mutual
  pub data Tree : Type 0 where
    node : Addr → Forest → Tree

  pub data Forest : Type 0 where
    bare : Forest
    child : String → Tree → Forest → Forest

abbrev pub root : Tree → Addr
root (node a fs) = a

-- The map of a manager that owns these trees.
abbrev pub owned : Forest → HashMap String Addr
owned bare = []
owned (child k t fs) = (k, root t) ∷ owned fs

abbrev larger : ℕ → ℕ → ℕ
larger m n = if ltb m n then n else m

-- Whether an address stands in a tree, and how many levels a tree has.
unfoldable mutual
  pub holds_tree : Tree → Addr → Bool
  holds_tree (node a fs) b = a == b || holds_forest fs b

  pub holds_forest : Forest → Addr → Bool
  holds_forest bare b = false
  holds_forest (child k t fs) b = holds_tree t b || holds_forest fs b

unfoldable mutual
  pub height : Tree → ℕ
  height (node a fs) = suc (forest_height fs)

  pub forest_height : Forest → ℕ
  forest_height bare = 0
  forest_height (child k t fs) = larger (height t) (forest_height fs)

-- An object of this class owns these trees.
abbrev pub Shows : Derived → Forest → Type 0
Shows (manager m) fs = m ≡ owned fs
Shows plain bare = Unit
Shows plain (child k t fs) = ⊥
Shows (module_object s) bare = Unit
Shows (module_object s) (child k t fs) = ⊥

abbrev pub Apart : Tree → Forest → Type 0
Apart t fs = (b : Addr) → holds_tree t b ≡ true → holds_forest fs b ≡ false

-- The objects of a tree stand in the store, none of them twice, and each entry of a manager under its
-- own key.
unfoldable mutual
  pub IsTree : Heap → Tree → Type 0
  IsTree h (node a fs) =
      ((q : Object) × (h.cell a ≡ some q) × Shows q.derived fs)
      × (holds_forest fs a ≡ false)
      × IsForest h (owned fs) fs

  pub IsForest : Heap → HashMap String Addr → Forest → Type 0
  IsForest h all bare = Unit
  IsForest h all (child k t fs) =
      (find k all ≡ some (root t)) × Apart t fs × IsTree h t × IsForest h all fs

-- A store in which the addresses of a set are free, and nothing else of what the loop looks at has
-- changed.
pub record Cleared (h : Heap) (S : Addr → Bool) (h' : Heap) : Type 0 where
  pub gone : (a : Addr) → S a ≡ true → h'.cell a ≡ none
  pub others : (a : Addr) → S a ≡ false → SameClass (h.cell a) (h'.cell a)
  pub kept :
      (a o : Addr) (s : ℕ)
      → S a ≡ false
      → S o ≡ false
      → slots_at h'.cell a s o ≡ slots_at h.cell a s o
  pub linked : Linked h'.cell
  pub quiet : h'.calls ≡ h.calls
