-- ===== src/AsyncBridge/Prefix.antt =====
-- temporalio_trio/_async_bridge.py: the worker id in front of the data, and how
-- temporalio_trio_bridge/src/bridge.rs reads it.
use python_trio_sdk.Common.{
  ℕ, zero, suc, ◌+◌, ◌*◌, ◌/◌, ◌%◌, String, Option, none, some, List, [], ◌∷◌, ◌++◌, if◌then◌else◌,
  ◌==◌, ltb, string_eq,
}
use python_trio_sdk.Host.{Result, ok, err, overflow_error}
use python_trio_sdk.AsyncBridge.State.{Bytes}

-- len(data)
unfoldable pub length : {A : Type 0} → List A → ℕ
length [] = 0
length (_ ∷ xs) = suc (length xs)

-- UTF-8: `str.encode` of Python and `String::from_utf8` of Rust.
pub record Utf8 : Type 0 where
  pub encode : String → Bytes
  pub from_utf8 : Bytes → Option String

-- n.to_bytes(4, byteorder="big")
unfoldable pub to_bytes : {Object : Type 0} → ℕ → Result Object Bytes
to_bytes n =
    if ltb n 4294967296
    then ok (n / 16777216 ∷ n / 65536 % 256 ∷ n / 256 % 256 ∷ n % 256 ∷ [])
    else err overflow_error

-- u32::from_be_bytes
unfoldable pub from_be_bytes : (a b c d : ℕ) → ℕ
from_be_bytes a b c d = ((a * 256 + b) * 256 + c) * 256 + d

unfoldable pub take : {A : Type 0} → ℕ → List A → List A
take zero xs = []
take (suc n) [] = []
take (suc n) (x ∷ xs) = x ∷ take n xs

unfoldable pub drop : {A : Type 0} → ℕ → List A → List A
drop zero xs = xs
drop (suc n) [] = []
drop (suc n) (x ∷ xs) = drop n xs

module _ (u : Utf8) where
  unfoldable pub encode_worker_id_prefix :
      {Object : Type 0} → (worker_id : String) → Bytes → Result Object Bytes
  unfolding to_bytes length
  encode_worker_id_prefix worker_id payload = with_length (to_bytes (length (u.encode worker_id)))
    where
      with_length : {Object : Type 0} → Result Object Bytes → Result Object Bytes
      with_length (err e) = err e
      with_length (ok size) = ok (size ++ u.encode worker_id ++ payload)

  -- `worker_id.encode("utf-8") if worker_id else b""`
  unfoldable pub worker_bytes : Option String → Bytes
  worker_bytes none = []
  worker_bytes (some worker_id) = if worker_id == "" then [] else u.encode worker_id

  -- the data of the operations that complete something, with the worker id if there is one
  unfoldable pub prefixed : {Object : Type 0} → Option String → Bytes → Result Object Bytes
  unfolding encode_worker_id_prefix
  prefixed none payload = ok payload
  prefixed (some worker_id) payload =
      if worker_id == "" then ok payload else encode_worker_id_prefix worker_id payload

  unfoldable pub named : Option String → Bytes → Option (String × Bytes)
  named none remaining = none
  named (some worker_id) remaining = some (worker_id, remaining)

  unfoldable pub parse_worker_id_prefix : Bytes → Option (String × Bytes)
  unfolding from_be_bytes length take drop named
  parse_worker_id_prefix (a ∷ b ∷ c ∷ d ∷ rest) =
      let wid_len = from_be_bytes a b c d in
      if ltb (length rest) wid_len
      then none
      else named (u.from_utf8 (take wid_len rest)) (drop wid_len rest)
  parse_worker_id_prefix _ = none
