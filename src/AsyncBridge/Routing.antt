-- ===== src/AsyncBridge/Routing.antt =====
-- temporalio_trio/_async_bridge.py and temporalio_trio_bridge/src/bridge.rs: which worker a completion
-- or a heartbeat is for.
use python_trio_sdk.Common.{
  ℕ, ◌+◌, ◌/◌, ◌%◌, ◌<◌, ◌≤◌, ◌≡◌, refl, ap, Bool, true, false, String, Option, none, some, List,
  [], ◌∷◌, ◌++◌, if◌then◌else◌, ◌==◌, ltb, string_eq, arith,
}
use python_trio_sdk.Host.{ok}
use python_trio_sdk.AsyncBridge.State.{Bytes}
use python_trio_sdk.AsyncBridge.Prefix.{
  length, Utf8, to_bytes, from_be_bytes, take, drop, encode_worker_id_prefix, prefixed, named,
  parse_worker_id_prefix,
}

length-++ : {A : Type 0} (xs ys : List A) → length (xs ++ ys) ≡ length xs + length ys
unfolding length
length-++ [] ys = omega arith
length-++ (x ∷ xs) ys = rw (length-++ xs ys) (omega arith)

take-length-++ : {A : Type 0} (xs ys : List A) → take (length xs) (xs ++ ys) ≡ xs
unfolding take length
take-length-++ [] ys = refl
take-length-++ (x ∷ xs) ys = ap (λ zs. x ∷ zs) (take-length-++ xs ys)

drop-length-++ : {A : Type 0} (xs ys : List A) → drop (length xs) (xs ++ ys) ≡ ys
unfolding drop length
drop-length-++ [] ys = refl
drop-length-++ (x ∷ xs) ys = drop-length-++ xs ys

from_be_bytes-to_bytes :
    (n : ℕ)
    → n < 4294967296
    → from_be_bytes (n / 16777216) (n / 65536 % 256) (n / 256 % 256) (n % 256) ≡ n
unfolding from_be_bytes
from_be_bytes-to_bytes n bound = omega arith

ltb-not : (a b : ℕ) → b ≤ a → ltb a b ≡ false
ltb-not a b h = ground arith

ltb-lt : (a b : ℕ) → a < b → ltb a b ≡ true
ltb-lt a b h = ground arith

module _ (u : Utf8) where
  -- What the bridge has to find in front of the data.
  unfoldable pub addressee : Option String → Bytes → Option (String × Bytes)
  addressee none payload = none
  addressee (some worker_id) payload = if worker_id == "" then none else some (worker_id, payload)

  parse-header :
      (n : ℕ) (worker_id : String) (payload : Bytes)
      → n < 4294967296
      → length (u.encode worker_id) ≡ n
      → u.from_utf8 (u.encode worker_id) ≡ some worker_id
      → parse_worker_id_prefix u
          (n / 16777216 ∷ n / 65536 % 256 ∷ n / 256 % 256 ∷ n % 256 ∷ u.encode worker_id ++ payload)
        ≡ some (worker_id, payload)
  unfolding parse_worker_id_prefix named
  parse-header n worker_id payload bound size decodes =
      rw
        (
          from_be_bytes-to_bytes n bound,
          ltb-not (length (u.encode worker_id ++ payload)) n
              (rw (length-++ (u.encode worker_id) payload) (omega arith)),
          ← size,
          take-length-++ (u.encode worker_id) payload,
          drop-length-++ (u.encode worker_id) payload,
          decodes,
        )
        refl

  unprefixed-parse :
      (rest : Bytes) → length rest < 167772159 → parse_worker_id_prefix u (10 ∷ rest) ≡ none
  unfolding parse_worker_id_prefix length from_be_bytes
  unprefixed-parse [] bound = refl
  unprefixed-parse (_ ∷ []) bound = refl
  unprefixed-parse (_ ∷ _ ∷ []) bound = refl
  unprefixed-parse (b ∷ c ∷ d ∷ rest) bound =
      rw (ltb-lt (length rest) (from_be_bytes 10 b c d) (omega arith)) refl

  encoded-parse :
      {Object : Type 0} (worker_id : String) (payload : Bytes)
      → length (u.encode worker_id) < 4294967296
      → u.from_utf8 (u.encode worker_id) ≡ some worker_id
      → (sent : Bytes) × (encode_worker_id_prefix u {Object = Object} worker_id payload ≡ ok sent)
        × (parse_worker_id_prefix u sent ≡ some (worker_id, payload))
  unfolding encode_worker_id_prefix to_bytes
  encoded-parse worker_id payload bound decodes =
      let n = length (u.encode worker_id) in
      (
        n / 16777216 ∷ n / 65536 % 256 ∷ n / 256 % 256 ∷ n % 256 ∷ u.encode worker_id ++ payload,
        rw (ltb-lt n 4294967296 bound) refl,
        parse-header (length (u.encode worker_id)) worker_id payload bound refl decodes,
      )

  -- The bridge finds the worker id and the data that the wrapper put together, and finds no worker id
  -- where none was given or it is empty; for a worker id of less than 2 ^ 32 bytes that UTF-8 reads
  -- back, and a message that starts with its first field (the byte 10) and is shorter than 160 MB.
  pub worker_id_round_trip :
      {Object : Type 0} (worker_id : Option String) (rest : Bytes)
      → ((w : String) → worker_id ≡ some w → length (u.encode w) < 4294967296)
      → ((w : String) → worker_id ≡ some w → u.from_utf8 (u.encode w) ≡ some w)
      → length rest < 167772159
      → (sent : Bytes) × (prefixed u {Object = Object} worker_id (10 ∷ rest) ≡ ok sent)
        × (parse_worker_id_prefix u sent ≡ addressee worker_id (10 ∷ rest))
  unfolding prefixed addressee
  worker_id_round_trip none rest short decodes bound =
      (10 ∷ rest, refl, unprefixed-parse rest bound)
  worker_id_round_trip {Object = Object} (some w) rest short decodes bound = go (w == "")
    where
      go :
          (b : Bool)
          → (sent : Bytes) × ((if b
                then ok (10 ∷ rest)
                else encode_worker_id_prefix u {Object = Object} w (10 ∷ rest))
              ≡ ok sent)
            × (parse_worker_id_prefix u sent ≡ (if b then none else some (w, 10 ∷ rest)))
      go true = (10 ∷ rest, refl, unprefixed-parse rest bound)
      go false = encoded-parse w (10 ∷ rest) (short w refl) (decodes w refl)
