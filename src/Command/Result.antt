-- ===== src/Command/Result.antt =====
-- CommandResult: a code, and data that may be there, and may have a JSON form.
pub mod Codes
pub mod RoundTrip
mod Tests
use module_flow.Prelude.{
  ℕ, suc, ◌≡◌, Bool, true, false, Option, none, some, List, [], ◌∷◌, ◌==◌, nat_eq, int_eq,
  if◌then◌else◌, ℤ, pos, negsuc, not, ltb_ℤ,
}
use module_flow.Data.Json.{Bytes, JsonLibrary}
use module_flow.Data.Reference.{JsonRef, to_bool_ref, object_size, to_int, at_key}

-- enum ResultCode
abbrev pub success : ℤ
success = pos 0

abbrev pub failed : ℤ
failed = negsuc 0

abbrev pub async_accept : ℤ
async_accept = pos 1

-- CommandResult(bool, int)
unfoldable pub code_of_flag : Bool → ℤ → ℤ
code_of_flag flag error_code = if flag then success else error_code

unfoldable pub is_success : ℤ → Bool
is_success code = code == success

unfoldable pub is_error : ℤ → Bool
is_error code = ltb_ℤ code failed

unfoldable pub is_async_accept : ℤ → Bool
is_async_accept code = ltb_ℤ async_accept code

abbrev pub error_code_key : Bytes
error_code_key = b'e' ∷ b'r' ∷ b'r' ∷ b'o' ∷ b'r' ∷ b'_' ∷ b'c' ∷ b'o' ∷ b'd' ∷ b'e' ∷ []

abbrev pub data_key : Bytes
data_key = b'd' ∷ b'a' ∷ b't' ∷ b'a' ∷ []

-- What `dynamic_cast<JsonInterface*>(data())` sees: no object, one without a JSON form, or one with it.
pub data ResultData (D : Type 0) : Type 0 where
  no_data : ResultData D
  opaque : ResultData D
  json_data : D → ResultData D

pub record CommandResult (D : Type 0) : Type 0 where
  pub code_ : ℤ
  pub data_ : ResultData D

-- `serialize` and `deserialize` of the data objects are the arguments `write` and `read`; `read`
-- returns the object as it leaves it, and its result.
module _ (j : JsonLibrary) {D : Type 0} (write : D → j.Value)
    (read : JsonRef j → D → D × Bool) where
  open j use {Value}

  unfoldable pub serialize_data : ℤ → ResultData D → Value
  unfolding is_error
  serialize_data code no_data = j.of_int code
  serialize_data code opaque = j.of_int code
  serialize_data code (json_data d) =
      j.set_key
        (if is_error code
          then j.set_key j.null_value error_code_key (j.of_int code)
          else j.null_value)
        data_key (write d)

  -- CommandResult::serialize
  unfoldable pub serialize : CommandResult D → Value
  unfolding serialize_data
  serialize r = serialize_data r.code_ r.data_

  -- The part of `deserialize` for the code.
  unfoldable pub read_code : JsonRef j → ℤ → ℤ × Bool
  read_code err code = if to_bool_ref j err then to_int j err failed else (code, false)

  -- The part for the data; the flag stays as it is where there is nothing to read into.
  unfoldable pub read_data : JsonRef j → ResultData D → Bool → ResultData D × Bool
  read_data dt (json_data d) flag =
      if to_bool_ref j dt then (json_data (read dt d).0, (read dt d).1) else (json_data d, flag)
  read_data dt no_data flag = (no_data, flag)
  read_data dt opaque flag = (opaque, flag)

  -- CommandResult::deserialize
  unfoldable pub deserialize : JsonRef j → CommandResult D → CommandResult D × Bool
  unfolding read_code read_data
  deserialize ref r =
      if ltb_ℤ (object_size j ref) (pos 0)
      then (record r { code_ = (to_int j ref success).0 }, (to_int j ref success).1)
      else let (code, flag) = read_code (at_key j ref error_code_key false).0 r.code_ in
        let (dt, flag') = read_data (at_key j ref data_key false).0 r.data_ flag in
        (record { code_ = code; data_ = dt }, flag')
