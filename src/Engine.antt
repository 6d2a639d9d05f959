-- ===== src/Engine.antt =====
-- src/engine.rs: the interface of the engines, and the structure parameters of src/types.rs. An
-- engine in a state of type `E` returns the new state; `none` is a panic.
use beetree.Prelude.{ℕ, Option, List}
use beetree.Key.{Key}
use beetree.Message.{Value, UpsertOp}
use beetree.Node.{Bound}

pub record Params : Type 0 where
  pub fanout : ℕ
  pub buffer_capacity : ℕ
  pub leaf_capacity : ℕ

-- `Params::default()`.
abbrev pub default_params : Params
default_params = record { fanout = 4; buffer_capacity = 8; leaf_capacity = 8 }

pub record KvEngine (E : Type 0) : Type 0 where
  pub new : Params → Option E
  pub insert : Key → Value → E → Option E
  pub delete : Key → E → Option E
  pub upsert : Key → UpsertOp → E → Option E
  pub scan : Bound → Bound → E → Option (List (Key × Value) × E)
  pub get : Key → E → Option (Option Value × E)
