-- ===== src/Command/Data/Reads.antt =====
-- What getData of a command reads.
use module_flow.Prelude.{
  ℕ, ◌≡◌, true, false, none, some, arith, ◌==◌, nat_eq, if◌then◌else◌, beq-false, Bool-cases, inl,
  inr, String, string_eq,
}
use module_flow.Container.HashMap.{HashMap, find, valueref}
use module_flow.Object.Heap.{Addr, null, Object, Heap, done, fault}
use module_flow.Object.Returns.{load_lem}
use module_flow.Object.Manager.Laws.{Manages, get_lem}
use module_flow.Data.Create.{Values}
use module_flow.Data.Create.Laws.{Holds}
use module_flow.Command.Data.{read_as, get_data_or}

module _ {V : Type 0} where
  module _ (type_of : V → ℕ) where
    read_lem :
        (h : Heap) (T : ℕ) (p : Addr) (o : Object) (v : V) (values : Values V)
        → h.cell p ≡ some o
        → values p ≡ some v
        → read_as type_of T p values h ≡ (if type_of v == T then done v h else fault)
    unfolding read_as
    read_lem h T p o v values e w =
        rw (load_lem p h o e, w)
          (elim (Bool-cases (type_of v == T)) [ inl y ↦ rw y | inr n ↦ rw n ])

    pub get_data-Holds :
        (mgr_ : Addr) (h : Heap) (q : Object) (m : HashMap String Addr) (T : ℕ) (k : String)
        (v w : V) (values : Values V)
        → Manages h mgr_ q m
        → Holds h values m k w
        → get_data_or type_of mgr_ T k v values h
          ≡ (if type_of w == T then done (w, true) h else fault)
    unfolding get_data_or
    get_data-Holds mgr_ h q m T k v w values g x =
        rw
          (
            get_lem h mgr_ q m k g,
            found,
            beq-false x.address null x.not_null,
            read_lem h T x.address x.object w values x.stands x.value,
          )
          (elim (Bool-cases (type_of w == T)) [ inl y ↦ rw y | inr n ↦ rw n ])
      where
        found : valueref m k null ≡ x.address
        found = unfold valueref in ground (arith, x.entry)

    pub get_data-missing :
        (mgr_ : Addr) (h : Heap) (q : Object) (m : HashMap String Addr) (T : ℕ) (k : String) (v : V)
        (values : Values V)
        → Manages h mgr_ q m
        → find k m ≡ none
        → get_data_or type_of mgr_ T k v values h ≡ done (v, false) h
    unfolding get_data_or
    get_data-missing mgr_ h q m T k v values g e = rw (get_lem h mgr_ q m k g, missing)
      where
        missing : valueref m k null ≡ null
        missing = unfold valueref in ground (arith, e)
