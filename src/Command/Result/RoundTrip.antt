-- ===== src/Command/Result/RoundTrip.antt =====
-- A result that is serialized and read back.
use module_flow.Prelude.{
  ◌<◌, ◌≡◌, refl, Bool, true, false, nat_eq, int_eq, list_eq, if◌then◌else◌, ℤ, pos, negsuc, ltb_ℤ,
  to_int32_small, ◌⊎◌, inl, inr, Bool-cases, arith,
}
use module_flow.Data.Json.{JsonLibrary, JsonLaws}
use module_flow.Data.Reference.{
  JsonRef, to, global_empty, value, to_bool_ref, object_size, to_int, convert, at_key, has_key,
  index_key,
}
use module_flow.Command.Result.{
  success, failed, error_code_key, data_key, is_error, no_data, opaque, json_data, ResultData,
  CommandResult, serialize, deserialize, read_code, read_data,
}

module _ (j : JsonLibrary) (laws : JsonLaws j) {D : Type 0} (write : D → j.Value)
    (read : JsonRef j → D → D × Bool) where
  to_int_lem : (n d : ℤ) → to_int j (to (j.of_int n)) d ≡ (n, true)
  unfolding to_int convert value
  to_int_lem n d = rw (laws.int_no_null n, laws.int_converts n, laws.int_reads n)

  int_size : (n : ℤ) → object_size j (to (j.of_int n)) ≡ negsuc 0
  unfolding object_size value
  int_size n = rw (laws.int_no_object n)

  -- The object that `serialize` makes.
  abbrev document : Bool → ℤ → j.Value → j.Value
  document err code x =
      j.set_key
        (if err then j.set_key j.null_value error_code_key (j.of_int code) else j.null_value)
        data_key x

  -- The value before the data is set is null or an object.
  base_ok :
      (err : Bool) (code : ℤ)
      → let v =
          if err then j.set_key j.null_value error_code_key (j.of_int code) else j.null_value in
        (j.is_null v ≡ true) ⊎ (j.is_object v ≡ true)
  base_ok true code =
      inr (laws.key_object j.null_value (j.of_int code) error_code_key (inl laws.null_is_null))
  base_ok false code = inl laws.null_is_null

  base_size :
      (err : Bool) (code : ℤ)
      → let v =
          if err then j.set_key j.null_value error_code_key (j.of_int code) else j.null_value in
        j.size v < 2
  base_size true code = omega (
    arith,
    laws.key_size j.null_value (j.of_int code) error_code_key (inl laws.null_is_null),
    laws.null_size,
  )
  base_size false code = omega (arith, laws.null_size)

  document_size :
      (err : Bool) (code : ℤ) (x : j.Value)
      → ltb_ℤ (object_size j (to (document err code x))) (pos 0) ≡ false
  unfolding object_size value
  document_size err code x =
      rw
        (
          laws.key_object _ x data_key (base_ok err code),
          to_int32_small (j.size (document err code x))
              (omega (arith, laws.key_size _ x data_key (base_ok err code), base_size err code)),
        )
        (ground arith)

  document_data :
      (err : Bool) (code : ℤ) (x : j.Value)
      → at_key j (to (document err code x)) data_key false ≡ (to x, true)
  unfolding at_key index_key has_key value
  document_data err code x = rw (
    laws.key_object _ x data_key (base_ok err code),
    laws.key_member _ x data_key data_key (base_ok err code),
    laws.key_at _ x data_key data_key (base_ok err code),
  )

  document_code :
      (err : Bool) (code : ℤ) (x : j.Value)
      → at_key j (to (document err code x)) error_code_key false
        ≡ (if err then (to (j.of_int code), true) else (global_empty, false))
  unfolding at_key index_key has_key value
  document_code true code x = rw (
    laws.key_object _ x data_key (base_ok true code),
    laws.key_member _ x data_key error_code_key (base_ok true code),
    laws.key_at _ x data_key error_code_key (base_ok true code),
    laws.key_object j.null_value (j.of_int code) error_code_key (inl laws.null_is_null),
    laws.key_member j.null_value (j.of_int code) error_code_key error_code_key
        (inl laws.null_is_null),
    laws.key_at j.null_value (j.of_int code) error_code_key error_code_key (inl laws.null_is_null),
  )
  document_code false code x = rw (
    laws.key_object j.null_value x data_key (base_ok false code),
    laws.key_member j.null_value x data_key error_code_key (base_ok false code),
    laws.null_no_object,
  )

  -- What is left of the data of a result, and the success, when data are read into them; `read_error`
  -- is the success of reading the code, which stays where no data can be taken.
  abbrev pub taken : D → Bool → ResultData D → ResultData D × Bool
  taken d read_error (json_data e) =
      (json_data (read (to (write d)) e).0, (read (to (write d)) e).1)
  taken d read_error no_data = (no_data, read_error)
  taken d read_error opaque = (opaque, read_error)

  -- What becomes of a result that another, with the code and the data given, is read into.
  abbrev pub received : ℤ → ResultData D → CommandResult D → CommandResult D × Bool
  received code (json_data d) r =
      let (x, ok) = taken d (is_error code) r.data_ in
      (record { code_ = if is_error code then code else r.code_; data_ = x }, ok)
  received code no_data r = (record r { code_ = code }, true)
  received code opaque r = (record r { code_ = code }, true)

  received_data :
      (code : ℤ) (d : D) (r : CommandResult D) (x : ResultData D)
      → r.data_ ≡ x
      → deserialize j write read
          (to (serialize j write read (record { code_ = code; data_ = json_data d })))
          r
        ≡ (
          record {
            code_ = if is_error code then code else r.code_;
            data_ = (taken d (is_error code) x).0;
          },
          (taken d (is_error code) x).1,
        )
  unfolding deserialize serialize read_code read_data to_bool_ref
  received_data code d r x q =
      rw
        (
          document_size (is_error code) code (write d),
          document_data (is_error code) code (write d),
          document_code (is_error code) code (write d),
          q,
        )
        (elim (Bool-cases (is_error code)) [
          | inl y ↦ rw (y, to_int_lem code failed) (ground arith)
          | inr n ↦ rw n (ground arith)
        ])

  -- A result that is serialized and read back into any other. Without data that have a JSON form it
  -- gives its code, the data there stay, and success is reported. With such data the code is given
  -- if it is an error, that is, below FAILED, and otherwise the other result keeps its own, since the
  -- code is not written; the data, if the other result has some that can take them, are what their own
  -- reading makes of what was written, with its success; if it has not, its data stay, and success is
  -- whether the code was given.
  pub deserialize-serialize :
      (code : ℤ) (x : ResultData D) (r : CommandResult D)
      → deserialize j write read
          (to (serialize j write read (record { code_ = code; data_ = x })))
          r
        ≡ received code x r
  unfolding deserialize serialize
  deserialize-serialize code no_data r = rw (int_size code, to_int_lem code success)
  deserialize-serialize code opaque r = rw (int_size code, to_int_lem code success)
  deserialize-serialize code (json_data d) r = received_data code d r r.data_ refl
