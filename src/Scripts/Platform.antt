-- ===== src/Scripts/Platform.antt =====
-- What the scripts use of other code: serde_json's numbers and their texts, equality of JSON values,
-- floating point, and the Unicode tables of Rust's `char`.
use solx_core.Prelude.{ℕ, ℤ, Bool, Option, Text}
use solx_core.Json.{Value}

pub record Platform : Type 1 where
  pub Number : Type 0
  pub Float : Type 0
  -- `as_f64` of a number, and what the scripts ask of the result.
  pub as_f64 : Number → Option Float
  pub f64_eq : Float → Float → Bool
  pub f64_lt : Float → Float → Bool
  pub f64_le : Float → Float → Bool
  pub f64_min : Float → Float → Float
  pub f64_zero : Float
  pub max_wait_secs : Float
  -- A text as a float, and a float as a JSON number.
  pub parse_f64 : Text → Option Float
  pub from_f64 : Float → Option Number
  -- The number of an `i64`.
  pub from_i64 : ℤ → Number
  -- `==` of JSON values, and their compact text.
  pub value_eq : Value Number → Value Number → Bool
  pub to_json : Value Number → Text
  pub is_alphabetic : ℕ → Bool
  pub is_alphanumeric : ℕ → Bool
