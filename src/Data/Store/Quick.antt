-- ===== src/Data/Store/Quick.antt =====
-- data::getT, d_get, d_set and d_update of include/basic/data_manager_def.h, for one type T, over a
-- store in which `objects` gives the TDataObject<T> at an address, and none where an object of
-- another class stands.
use module_flow.Prelude.{
  ◌≡◌, refl, Option, none, some, ◌==◌, nat_eq, if◌then◌else◌, arith, beq_self, ◌≢◌, beq-false,
}
use module_flow.Data.Json.{Bytes}
use module_flow.Data.Store.{DataStore, Lookup, pointer, invalid_argument, get}
use module_flow.Data.TypedObject.{TypedObject, get as value, set, update_with}
use module_flow.Object.Heap.{Addr, null}

abbrev pub Objects : Type 0 → Type 0
Objects T = Addr → Option (TypedObject T)

-- What getT gives: the exception of data::get, null, or an object and its address.
pub data Found (T : Type 0) : Type 0 where
  thrown null_found : Found T
  found : Addr → TypedObject T → Found T

module _ {T : Type 0} where
  -- dynamic_cast<TDataObject<T>*>
  unfoldable pub cast : Objects T → Lookup → Found T
  cast objects invalid_argument = thrown
  cast objects (pointer a) =
      if a == null then null_found else elim (objects a) [ none ↦ null_found | some o ↦ found a o ]

  unfoldable pub replace : Addr → TypedObject T → Objects T → Objects T
  replace a o objects b = if a == b then some o else objects b

  -- The value that d_get leaves in its argument, and the objects that d_set and d_update leave.
  unfoldable pub read_found : Found T → T → T
  read_found (found a o) d = value o
  read_found _ d = d

  unfoldable pub change_found : (TypedObject T → TypedObject T) → Found T → Objects T → Objects T
  unfolding replace
  change_found f (found a o) objects = replace a (f o) objects
  change_found f _ objects = objects

  module _ (store : DataStore) where
    -- getT(key), `none` for out of fuel
    unfoldable pub get_t : Bytes → Objects T → Option (Found T)
    unfolding cast
    get_t key objects = elim (get store key) [ none ↦ none | some l ↦ some (cast objects l) ]

    -- Each with the pointer that it returns.
    unfoldable pub d_get : Bytes → T → Objects T → Option (Found T × T)
    unfolding get_t read_found
    d_get name d objects = elim (get_t name objects) [
      | none ↦ none
      | some p ↦ some (p, read_found p d)
    ]

    unfoldable pub d_set : Bytes → T → Objects T → Option (Found T × Objects T)
    unfolding get_t change_found
    d_set name d objects = elim (get_t name objects) [
      | none ↦ none
      | some p ↦ some (p, change_found (set d) p objects)
    ]

    unfoldable pub d_update : Bytes → T → Objects T → Option (Found T × Objects T)
    unfolding get_t change_found
    d_update name d objects = elim (get_t name objects) [
      | none ↦ none
      | some p ↦ some (p, change_found (update_with d) p objects)
    ]

    get_t-found :
        (name : Bytes) (objects : Objects T) (a : Addr) (o : TypedObject T)
        → get store name ≡ some (pointer a)
        → a ≢ null
        → objects a ≡ some o
        → get_t name objects ≡ some (found a o)
    unfolding get_t cast
    get_t-found name objects a o e n z = ground (arith, e, beq-false a null n, z)

    -- Where a path leads to an object of the type, d_get after d_set gives the value that was set.
    d_set-d_get :
        (name : Bytes) (d x : T) (objects : Objects T) (a : Addr) (o : TypedObject T)
        → get store name ≡ some (pointer a)
        → a ≢ null
        → objects a ≡ some o
        → (d_set name d objects ≡ some (found a o, replace a (set d o) objects))
          × (d_get name x (replace a (set d o) objects) ≡ some (found a (set d o), d))
    unfolding d_set d_get change_found read_found
    d_set-d_get name d x objects a o e n z = (
      rw (d_set, get_t-found name objects a o e n z) refl,
      rw
          (
            d_get,
            get_t-found name (replace a (set d o) objects) a (set d o) e n
                (unfold replace in rw (beq_self a) refl),
          )
          (unfold set value in refl),
    )
