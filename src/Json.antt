-- ===== src/Json.antt =====
-- What the clients use of the cJSON library, which is not part of this repository.
pub mod Memory
use winegrid_internship.Base.{Bool, List, Option, Bytes, ℤ}

-- A NULL pointer is `none`. `string_of` is `valuestring` where `cJSON_IsString` holds, and
-- `number_of` is `valueint` where `cJSON_IsNumber` holds.
pub record CJson : Type 1 where
  pub Value : Type 0
  pub parse : Bytes → Option Value
  pub get_object_item : Value → Bytes → Option Value
  -- `cJSON_ArrayForEach`: the members with their names, in order.
  pub members : Value → List (Bytes × Value)
  -- The members have no names, `item->string` is NULL: an array that is not empty.
  pub nameless : Value → Bool
  pub string_of : Value → Option Bytes
  pub number_of : Value → Option ℤ
