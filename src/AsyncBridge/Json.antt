-- ===== src/AsyncBridge/Json.antt =====
-- temporalio_trio/_async_bridge.py: the dictionaries that the operations send as JSON.
use python_trio_sdk.Common.{ℕ, Bool, String, Option, none, some, List, string_eq}
use python_trio_sdk.Common.Dict.{Dict, put}
use python_trio_sdk.AsyncBridge.State.{Bytes}

-- A value of such a dictionary. `object` stands for numbers with a fraction and for nested
-- dictionaries, which come from the caller.
pub data Json (Object : Type 0) : Type 0 where
  null : Json Object
  text : String → Json Object
  number : ℕ → Json Object
  boolean : Bool → Json Object
  numbers : List ℕ → Json Object
  texts : List String → Json Object
  object : Object → Json Object

-- `json.dumps(d).encode("utf-8")`
abbrev pub Dumps : Type 0 → Type 0
Dumps Object = Dict String (Json Object) → Bytes

module _ {Object : Type 0} where
  -- `d[k] = x if x is not None`
  unfoldable pub put_given :
      String → Option (Json Object) → Dict String (Json Object) → Dict String (Json Object)
  unfolding put
  put_given k none d = d
  put_given k (some x) d = put d k x

  -- None becomes null
  unfoldable pub or_null : Option String → Json Object
  or_null none = null
  or_null (some s) = text s

-- `s or ""`
unfoldable pub or_empty : Option String → String
or_empty none = ""
or_empty (some s) = s
