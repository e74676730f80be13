-- ===== src/Data/Scalars.antt =====
-- Single values and JSON: the FromBasic, ToBasic, FromStdString and ToStdString forms of
-- standard::fromJson and toJson (include/basic/data_manager_def.h), for values and for values in
-- atomic::AtomicData and atomic::MutexData (include/basic/base.h). `read` is toT<T> and `write` the
-- constructor of Json::Value for the type.
pub mod RoundTrip
use module_flow.Prelude.{Bool, true, false, Option, none, some, if◌then◌else◌}
use module_flow.Data.Json.{JsonLibrary}
use module_flow.Data.Reference.{JsonRef}

module _ (T : Type 0) where
  pub record AtomicData : Type 0 where
    pub data_ : T

  -- `mtx_` tells whether the mutex is held.
  pub record MutexData : Type 0 where
    pub data_ : T
    pub mtx_ : Bool

module _ {T : Type 0} where
  unfoldable pub atomic_data_load : AtomicData T → T
  atomic_data_load a = a.data_

  unfoldable pub atomic_data_store : T → AtomicData T → AtomicData T
  atomic_data_store d a = record a { data_ = d }

  -- The guard of MutexDataLoad and MutexDataStore, `none` where it waits for ever: what it guards, and
  -- the end of its scope.
  unfoldable pub lock_guard :
      {A : Type 0} → (MutexData T → A × MutexData T) → MutexData T → Option (A × MutexData T)
  lock_guard body m =
      if m.mtx_
      then none
      else (let (a, m') = body (record m { mtx_ = true }) in some (a, record m' { mtx_ = false }))

  unfoldable pub mutex_data_load : MutexData T → Option (T × MutexData T)
  unfolding lock_guard
  mutex_data_load m = lock_guard (λ n. (n.data_, n)) m

  unfoldable pub mutex_data_store : T → MutexData T → Option (MutexData T)
  unfolding lock_guard
  mutex_data_store d m = elim (lock_guard (λ n. (tt, record n { data_ = d })) m) [
    | none ↦ none
    | some r ↦ some r.1
  ]

module _ {T Value : Type 0} where
  unfoldable pub to_atomic : (T → Value) → AtomicData T → Value
  unfolding atomic_data_load
  to_atomic write d = write (atomic_data_load d)

  unfoldable pub to_mutex : (T → Value) → MutexData T → Option (Value × MutexData T)
  unfolding mutex_data_load
  to_mutex write d = elim (mutex_data_load d) [ none ↦ none | some (t, m) ↦ some (write t, m) ]

module _ {j : JsonLibrary} {T : Type 0} where
  -- fromJson; toT(d, &ok) stores what it reads in d also where it fails.
  unfoldable pub from_basic : (JsonRef j → T × Bool) → JsonRef j → T → T × Bool
  from_basic read r d = let (t, ok) = read r in (t, ok)

  unfoldable pub from_atomic :
      (JsonRef j → T × Bool) → JsonRef j → AtomicData T → AtomicData T × Bool
  unfolding atomic_data_store
  from_atomic read r d = let (t, ok) = read r in (atomic_data_store t d, ok)

  unfoldable pub from_mutex :
      (JsonRef j → T × Bool) → JsonRef j → MutexData T → Option (MutexData T × Bool)
  unfolding mutex_data_store
  from_mutex read r d =
      let (t, ok) = read r in elim (mutex_data_store t d) [ none ↦ none | some m ↦ some (m, ok) ]
