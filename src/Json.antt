-- ===== src/Json.antt =====
-- What src/protocol.rs and src/client.rs use of the crates serde_json and base64. Neither crate is
-- part of the repository, so their types and functions are parameters of every definition that
-- works on JSON.
use wu_kong_easy_sdk_rust.Base.{
  ℕ, suc, ◌≤◌, ◌<◌, ◌^◌, String, ◌≡◌, Bool, Option, none, some, List, str_eq, if◌then◌else◌,
}
use wu_kong_easy_sdk_rust.Base.Int.{ℤ}

-- The public cases of `serde_json::Value`, over the types of its values, maps and numbers.
pub data Shape (V M N : Type 0) : Type 0 where
  null : Shape V M N
  bool : Bool → Shape V M N
  number : N → Shape V M N
  string : String → Shape V M N
  array : List V → Shape V M N
  object : M → Shape V M N

pub record Json : Type 1 where
  -- `Value`, `Map<String, Value>` and `Number`
  pub Value : Type 0
  pub Map : Type 0
  pub Number : Type 0
  -- `match value` and the constructors of `Value`
  pub out : Value → Shape Value Map Number
  pub into : Shape Value Map Number → Value
  -- `Map::new`, `get`, `insert`, `remove`
  pub empty : Map
  pub get : Map → String → Option Value
  pub insert : Map → String → Value → Map
  pub remove : Map → String → Map
  -- `Number::as_u64`, `Number::as_i64` and the conversion from `u64`
  pub as_u64 : Number → Option ℕ
  pub as_i64 : Number → Option ℤ
  pub from_u64 : ℕ → Number
  -- `Value::to_string` (the compact text), `from_str`, `to_vec` and `from_slice`
  pub to_string : Value → String
  pub from_str : String → Option Value
  pub to_vec : Value → Option (List ℕ)
  pub from_slice : List ℕ → Option Value
  -- A bound on the nesting of a value, which is a finite tree.
  pub depth : Value → ℕ

-- The documented behaviour of serde_json on which the theorems rest.
pub record IsLawful (J : Json) : Type 0 where
  pub out-into : (s : Shape J.Value J.Map J.Number) → J.out (J.into s) ≡ s
  pub into-out : (v : J.Value) → J.into (J.out v) ≡ v
  pub get-empty : (k : String) → J.get J.empty k ≡ none
  pub get-insert :
      (m : J.Map) (k : String) (v : J.Value) (j : String)
      → J.get (J.insert m k v) j ≡ (if str_eq k j then some v else J.get m j)
  pub get-remove :
      (m : J.Map) (k j : String) → J.get (J.remove m k) j ≡ (if str_eq k j then none else J.get m j)
  pub as_u64-from_u64 : (n : ℕ) → n < 2 ^ 64 → J.as_u64 (J.from_u64 n) ≡ some n
  pub as_u64-lt : (n : J.Number) (k : ℕ) → J.as_u64 n ≡ some k → k < 2 ^ 64
  pub depth-get :
      (v w : J.Value) (m : J.Map) (k : String)
      → J.out v ≡ Shape.object m
      → J.get m k ≡ some w
      → suc (J.depth w) ≤ J.depth v

-- `STANDARD.encode` and `STANDARD.decode` of base64; decoding gives back what was encoded.
pub record Base64 : Type 0 where
  pub encode : List ℕ → String
  pub decode : String → Option (List ℕ)
  pub decode-encode : (bytes : List ℕ) → decode (encode bytes) ≡ some bytes
