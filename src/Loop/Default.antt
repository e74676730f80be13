-- ===== src/Loop/Default.antt =====
-- Which loop `get` gives for a name.
use module_flow.Prelude.{
  suc, ◌≡◌, refl, ◌∙◌, Bool, true, false, Option, none, some, [], arith, ◌==◌, nat_eq, ◌≢◌, ◌⊎◌,
  inl, inr, String, string_eq, beq-false, Bool-cases,
}
use module_flow.Container.HashMap.{HashMap, valueref}
use module_flow.Object.Heap.{
  Addr, null, Object, Heap, done, ◌>>=◌, pure, write, new_object, plain, undefined_object_name,
}
use module_flow.Object.Returns.{Returns, write-other}
use module_flow.Object.Manager.{get as manager_get}
use module_flow.Object.Manager.Laws.{Manages, get_lem}
use module_flow.Object.Linked.Create.{Fresh}
use module_flow.Loop.{get, default_loop, new_loop_object}

module _ (h : Heap) (mgr : Addr) (q : Object) (m : HashMap String Addr)
    (g : Manages h mgr q m) where
  -- A registered loop is found, and where no default is asked for nothing else is.
  get-registered :
      (name : String) (d : Bool) (s : Option Addr)
      → (valueref m name null ≢ null) ⊎ (d ≡ false)
      → get mgr name d s h ≡ done (valueref m name null, s) h
  unfolding get
  get-registered name d s (inl n) =
      rw (get_lem h mgr q m name g, beq-false (valueref m name null) null n) refl
  get-registered name d s (inr n) =
      rw (get_lem h mgr q m name g, n)
        (elim (Bool-cases (valueref m name null == null)) [ inl y ↦ rw y | inr e ↦ rw e ])

  get-default :
      (name : String) (s : Option Addr)
      → valueref m name null ≡ null
      → get mgr name true s h ≡ default_loop mgr s h
  unfolding get
  get-default name s n = rw (get_lem h mgr q m name g, n) refl

  module _ (f : Fresh h) where
    abbrev pool : Object
    pool = record {
      name_ = undefined_object_name;
      parent_ = null;
      connections_ = [];
      derived = plain;
    }

    with_pool : Heap
    with_pool = record h { cell = write h.cell h.next (some pool); next = suc h.next }

    with_pool-Manages : Manages with_pool mgr q m
    unfolding with_pool
    with_pool-Manages = record {
      stands =
          write-other h.cell h.next mgr (some pool) (λ e. ground (arith, f.unused, g.stands, e))
          ∙ g.stands;
      kind = g.kind;
    }

-- loop::get with a manager of loops, one name that has a loop and two that have none: the loop is
-- found; where no default is asked for, a name without a loop gives the null pointer; neither changes
-- anything. Where a default is asked for, the first two names without a loop give the same new
-- object, which is registered under no name.
pub get_default_lem :
    (h : Heap) (mgr : Addr) (q : Object) (m : HashMap String Addr) (name k1 k2 : String)
    → Manages h mgr q m
    → Fresh h
    → valueref m name null ≢ null
    → valueref m k1 null ≡ null
    → valueref m k2 null ≡ null
    → ((d : Bool) (s : Option Addr) → get mgr name d s h ≡ done (valueref m name null, s) h)
      × ((s : Option Addr) → get mgr k1 false s h ≡ done (null, s) h)
      × Returns
          ((get mgr k1 true none >>= λ r1. get mgr k2 true r1.1 >>= λ r2. pure (r1.0, r2.0, r2.1))
            h)
          (λ (p1, p2, s) h'.
            (h.cell p1 ≡ none)
            × (p1 ≢ null)
            × (p2 ≡ p1)
            × (s ≡ some p1)
            × ((k : String) → manager_get mgr k h' ≡ done (valueref m k null) h'))
unfolding default_loop new_loop_object new_object with_pool
get_default_lem h mgr q m name k1 k2 g f r n1 n2 = (
  λ d s. get-registered h mgr q m g name d s (inl r),
  λ s. get-registered h mgr q m g k1 false s (inr refl) ∙ rw n1 refl,
  rw (get-default h mgr q m g k1 none n1) (
      rw
        (get-default (with_pool h mgr q m g f) mgr q m (with_pool-Manages h mgr q m g f) k2
          (some h.next) n2)
        (
          f.unused,
          (λ e. f.next_ne_null e),
          refl,
          refl,
          λ k. get_lem (with_pool h mgr q m g f) mgr q m k (with_pool-Manages h mgr q m g f),
        )),
)
