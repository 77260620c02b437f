-- ===== src/Bridge/Commands/Fields.antt =====
-- temporalio_trio/worker/_bridge_types.py: fields that several commands share.
use python_trio_sdk.Common.{ℕ, String, Option, none, some, List, [], ◌∷◌, if◌then◌else◌, string_eq}
use python_trio_sdk.Common.Dict.{Dict, put}
use python_trio_sdk.Host.{Result, ok, err, index_error}
use python_trio_sdk.Bridge.Converters.{Converters, ◌>>=◌}
use python_trio_sdk.Bridge.Commands.Messages.{UserMetadata}

-- `if s: message.field = s`, a field that is empty without it
unfoldable pub text_field : Option String → String
text_field none = ""
text_field (some s) = s

-- `if n is not None: message.field = n`
unfoldable pub number_field : Option ℕ → ℕ
number_field none = 0
number_field (some n) = n

unfoldable pub summary_only : {Object : Type 0} → Option Object → Option (UserMetadata Object)
summary_only none = none
summary_only (some p) = some record { summary = some p; details = none }

unfoldable pub static_metadata :
    {Object : Type 0} → Option Object → Option Object → Option (UserMetadata Object)
static_metadata none none = none
static_metadata (some s) details = some record { summary = some s; details = details }
static_metadata none (some d) = some record { summary = none; details = some d }

-- `for k, v in items: d[k].CopyFrom(v)`
unfoldable pub copy_items :
    {Object : Type 0} → List (String × Object) → Dict String Object → Dict String Object
unfolding put
copy_items [] d = d
copy_items ((k, v) ∷ items) d = copy_items items (put d k v)

unfoldable pub copy_memo : {Object : Type 0} → Option (Dict String Object) → Dict String Object
unfolding copy_items
copy_memo none = []
copy_memo (some memo) = copy_items memo []

unfoldable pub encode_values :
    {Object : Type 0}
    → (Object → Result Object Object)
    → List (String × Object)
    → Result Object (List (String × Object))
encode_values f [] = ok []
encode_values f ((k, v) ∷ items) = do
  w ← f v
  encoded ← encode_values f items
  ok ((k, w) ∷ encoded)

-- `if x: ...`, for what is converted
unfoldable pub given :
    {Object A B : Type 0} → (A → Result Object B) → Option A → Result Object (Option B)
given f none = ok none
given f (some x) = do y ← f x; ok (some y)

module _ {Object : Type 0} (c : Converters Object) where
  -- `if args: field.extend(args)`
  unfoldable pub extended : List Object → Result Object (List Object)
  extended [] = ok []
  extended (arg ∷ args) = c.extend (arg ∷ args)

  unfoldable pub encode_search_attributes : Object → Result Object (Dict String Object)
  unfolding copy_items encode_values
  encode_search_attributes attributes =
      (if c.is_typed attributes
        then encode_values c.encode_typed_search_attribute_value (c.pairs attributes)
        else encode_values c.encode_search_attribute_values (c.items attributes))
      >>= λ encoded. ok (copy_items encoded [])

  -- the updates of an UpsertSearchAttributesCommand
  unfoldable pub encode_typed_items : Object → Result Object (Dict String Object)
  unfolding copy_items encode_values
  encode_typed_items updates = do
    encoded ← encode_values c.encode_typed_search_attribute_value (c.pairs updates)
    ok (copy_items encoded [])

  -- Attributes that are false are empty: nothing is encoded for them either.
  unfoldable pub encode_given_attributes : Option Object → Result Object (Dict String Object)
  unfolding encode_search_attributes
  encode_given_attributes none = ok []
  encode_given_attributes (some attributes) = encode_search_attributes attributes

  -- `to_payloads([value])[0]`
  unfoldable pub only_payload : Object → Result Object Object
  only_payload value = c.to_payloads (value ∷ []) >>= first
    where
      first : List Object → Result Object Object
      first [] = err index_error
      first (p ∷ _) = ok p

  -- The memo of a ContinueAsNewCommand is encoded value by value.
  unfoldable pub encode_items :
      List (String × Object) → Dict String Object → Result Object (Dict String Object)
  unfolding put only_payload
  encode_items [] d = ok d
  encode_items ((k, v) ∷ items) d = do
    payload ← only_payload v
    encode_items items (put d k payload)

  unfoldable pub encode_given_memo : Option Object → Result Object (Dict String Object)
  unfolding encode_items
  encode_given_memo none = ok []
  encode_given_memo (some memo) = encode_items (c.items memo) []
