-- ===== src/Bridge/Converters.antt =====
-- What temporalio_trio/worker/_bridge_types.py calls of the temporalio package, of protobuf and of
-- the processor's floating point numbers, as a parameter.
use python_trio_sdk.Common.{ℕ, ◌+◌, ◌*◌, ◌<◌, ◌≡◌, String, Bool, List, [], ◌∷◌}
use python_trio_sdk.Common.Dict.{Dict}
use python_trio_sdk.Host.{Exception, Result, ok, err}

infixl 5 ◌>>=◌
abbrev pub ◌>>=◌ : {Object A B : Type 0} → Result Object A → (A → Result Object B) → Result Object B
ok a >>= f = f a
err e >>= f = err e

-- What is returned satisfies the predicate.
unfoldable pub Always : {Object A : Type 0} → (A → Type 0) → Result Object A → Type 0
Always P (ok a) = P a
Always P (err _) = Unit {0}

pub >>=-Always :
    {Object A B : Type 0} (P : B → Type 0) (r : Result Object A) (f : A → Result Object B)
    → ((a : A) → Always P (f a))
    → Always P (r >>= f)
unfolding Always
>>=-Always P (ok a) f p = p a
>>=-Always P (err e) f p = tt

-- `tuple(f(x) for x in xs)`: the first exception ends it
unfoldable pub each :
    {Object A B : Type 0} → (A → Result Object B) → List A → Result Object (List B)
each f [] = ok []
each f (x ∷ xs) = do y ← f x; ys ← each f xs; ok (y ∷ ys)

-- Floating point numbers. The law holds of IEEE doubles: below 2 ^ 53 the whole numbers, their
-- exact quotients and their sums are exact.
pub record Floats : Type 1 where
  pub Float : Type 0
  -- int(x)
  pub int : Float → ℕ
  -- a / b of integers
  pub quotient : ℕ → ℕ → Float
  -- a + x, x - a, and x * a for an integer a
  pub plus : ℕ → Float → Float
  pub minus : Float → ℕ → Float
  pub times : Float → ℕ → Float
  -- td.total_seconds() of a timedelta in milliseconds
  pub total_seconds : ℕ → Float
  pub int-plus :
      (a k d : ℕ) → 0 < d → a + k * d < 9007199254740992 → int (plus a (quotient (k * d) d)) ≡ a + k

pub record Converters (Object : Type 0) : Type 1 where
  pub floats : Floats
  -- data_converter.payload_converter
  pub from_payload : Object → Result Object Object
  pub to_payload : Object → Result Object Object
  pub to_payloads : List Object → Result Object (List Object)
  -- a `str` as a Python object
  pub string : String → Object
  -- DefaultFailureConverter().to_failure and from_failure
  pub to_failure : Exception Object → Result Object Object
  pub from_failure : Object → Result Object (Exception Object)
  -- message.ByteSize()
  pub byte_size : Object → ℕ
  -- failure.message
  pub failure_message : Object → String
  -- str(e) of an exception
  pub message : Exception Object → String
  -- RetryPolicy.from_proto and apply_to_proto
  pub policy_from_proto : Object → Object
  pub policy_to_proto : Object → Result Object Object
  -- Priority.default, Priority._from_proto and _to_proto
  pub default_priority : Object
  pub priority_from_proto : Object → Object
  pub priority_to_proto : Object → Object
  pub decode_search_attributes : Object → Object
  pub decode_typed_search_attributes : Object → Object
  -- Search attributes as the SDK goes through them: isinstance TypedSearchAttributes, the names with
  -- their pairs, the names with their values, and the payload of a pair and of values.
  pub is_typed : Object → Bool
  pub pairs : Object → List (String × Object)
  pub items : Object → List (String × Object)
  pub encode_typed_search_attribute_value : Object → Result Object Object
  pub encode_search_attribute_values : Object → Result Object Object
  -- field.extend(args), which refuses what is no payload
  pub extend : List Object → Result Object (List Object)
  -- temporalio.common._apply_headers
  pub apply_headers : Dict String Object → Dict String Object
