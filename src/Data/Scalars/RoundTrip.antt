-- ===== src/Data/Scalars/RoundTrip.antt =====
-- Single values that are written as JSON and read.
use module_flow.Prelude.{◌≡◌, refl, Bool, true, false, some, ℤ}
use module_flow.Data.Json.{JsonLibrary, JsonLaws}
use module_flow.Data.Reference.{JsonRef, to, to_int, to_double, convert, value}
use module_flow.Data.Reference.Reads.{int_of, double_of}
use module_flow.Data.Scalars.{
  from_basic, from_atomic, to_atomic, from_mutex, to_mutex, atomic_data_store, atomic_data_load,
  mutex_data_store, mutex_data_load, lock_guard,
}

module _ (j : JsonLibrary) (laws : JsonLaws j) where
  pub int_of-of_int : (n : ℤ) → int_of j (to (j.of_int n)) ≡ (n, true)
  unfolding int_of to_int convert value
  int_of-of_int n = rw (laws.int_no_null n, laws.int_converts n, laws.int_reads n) refl

  pub double_of-of_double : (d : j.Double) → double_of j (to (j.of_double d)) ≡ (d, true)
  unfolding double_of to_double convert value
  double_of-of_double d =
      rw (laws.double_no_null d, laws.double_converts d, laws.double_reads d) refl

-- A type whose values read back from what is written for them, also does where a value stands in an
-- AtomicData or in a MutexData that nobody holds; and the mutex is free again afterwards.
scalars-round_trip :
    {j : JsonLibrary} {T : Type 0} (write : T → j.Value) (read : JsonRef j → T × Bool)
    → ((v : T) → read (to (write v)) ≡ (v, true))
    → (v x : T)
    → (from_basic read (to (write v)) x ≡ (v, true))
      × (from_atomic read (to (to_atomic write (record { data_ = v }))) (record { data_ = x })
          ≡ (record { data_ = v }, true))
      × ((to_mutex write (record { data_ = v; mtx_ = false })
            ≡ some (write v, record { data_ = v; mtx_ = false }))
          × (from_mutex read (to (write v)) (record { data_ = x; mtx_ = false })
              ≡ some (record { data_ = v; mtx_ = false }, true)))
unfolding from_basic from_atomic to_atomic from_mutex to_mutex atomic_data_store atomic_data_load
    mutex_data_store mutex_data_load lock_guard
scalars-round_trip write read h v x = rw (h v) (refl, refl, (refl, refl))
