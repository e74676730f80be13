-- ===== src/Object/Heap.antt =====
-- The store of objects, and programs over it. An Object* is a number, 0 is nullptr, and an address
-- that is free is a fault to read or write. An address is never given out twice, so a pointer that
-- dangles stays recognisable. Fuel counts destructors that run inside one another.
use module_flow.Prelude.{
  ℕ, suc, Option, none, some, List, [], ◌==◌, nat_eq, if◌then◌else◌, String, string_eq,
}
use module_flow.Container.HashMap.{HashMap}
use module_flow.Object.Connections.{Connections}

abbrev pub Addr : Type 0
Addr = ℕ

abbrev pub null : Addr
null = 0

-- What the slots of the framework do when they are called. `slot k` is the client's k-th closure,
-- `drop s o` is `s->disconnect(o)`, which `connect` installs, and `delete_object x` is `delete x`,
-- which Module::adoptObject installs.
pub data Task : Type 0 where
  slot : ℕ → Task
  drop : Addr → Addr → Task
  delete_object : Addr → Task

-- Module::ModuleStateSignal of include/framework/module.h.
pub data ModuleStateSignal : Type 0 where
  gonna_init inited gonna_idle idle deinit deinited : ModuleStateSignal

-- The part of an object below Object: a manager's entries, or the state of a module, which is
-- indeterminate until it is first stored.
pub data Derived : Type 0 where
  plain : Derived
  manager : HashMap String Addr → Derived
  module_object : Option ModuleStateSignal → Derived

-- PrivateImpl, with the derived part of the object that owns it.
pub record Object : Type 0 where
  pub name_ : String
  pub parent_ : Addr
  pub connections_ : Connections Task
  pub derived : Derived

-- `calls` lists the client's slots that were called, the latest first.
pub record Heap : Type 0 where
  pub cell : Addr → Option Object
  pub next : Addr
  pub calls : List ℕ

pub data Run (A : Type 0) : Type 0 where
  done : A → Heap → Run A
  out_of_fuel : Run A
  fault : Run A

abbrev pub Cmd : Type 0 → Type 0
Cmd A = Heap → Run A

abbrev pub pure : {A : Type 0} → A → Cmd A
pure = done

abbrev pub and_then : {A B : Type 0} → Run A → (A → Cmd B) → Run B
and_then (done a h) k = k a h
and_then out_of_fuel k = out_of_fuel
and_then fault k = fault

infixl 5 ◌>>=◌ ◌>>◌
abbrev pub ◌>>=◌ : {A B : Type 0} → Cmd A → (A → Cmd B) → Cmd B
◌>>=◌ m k h = and_then (m h) k

abbrev pub ◌>>◌ : {B : Type 0} → Cmd (Unit {0}) → Cmd B → Cmd B
◌>>◌ m n h = and_then (m h) (λ _. n)

unfoldable pub write : (Addr → Option Object) → Addr → Option Object → Addr → Option Object
write c p x q = if p == q then x else c q

-- Reading through a pointer.
unfoldable pub load : Addr → Cmd Object
load p h = elim (h.cell p) [ none ↦ fault | some o ↦ done o h ]

-- A change of the object that a pointer shows.
unfoldable pub modify : Addr → (Object → Object) → Cmd (Unit {0})
unfolding write
modify p f h = elim (h.cell p) [
  | none ↦ fault
  | some o ↦ done tt (record h { cell = write h.cell p (some (f o)) })
]

-- Giving the memory back.
unfoldable pub free : Addr → Cmd (Unit {0})
unfolding write
free p h = elim (h.cell p) [
  | none ↦ fault
  | some o ↦ done tt (record h { cell = write h.cell p none })
]

abbrev pub undefined_object_name : String
undefined_object_name = "@undefined"

-- The constructor Object(name): no parent, no connections, and a name for the empty one.
unfoldable pub new_object : String → Derived → Cmd Addr
unfolding write
new_object name derived h = done h.next (record h {
  cell = write h.cell h.next (
      some (record {
        name_ = if name == "" then undefined_object_name else name;
        parent_ = null;
        connections_ = [];
        derived = derived;
      }));
  next = suc h.next;
})

-- What the program leaves to its clients, or declares and does not define: the closures that
-- clients connect, createModuleName() and module() of namespace entry (include/common.h), and
-- the virtual onInit of a module.
pub record Environment : Type 0 where
  pub callback : ℕ → Cmd (Unit {0})
  pub create_module_name : Cmd String
  pub entry_module : String → Cmd Addr
  pub on_init : Addr → Cmd (Unit {0})
