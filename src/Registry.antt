-- ===== src/Registry.antt =====
-- registry/registry.go: what services tell of themselves. A nil map and an empty map differ in a node
-- only, where a filter asks; a nil value of an endpoint is `none`.
pub mod Memory
pub mod Util
pub mod Cache
use realmicro.Common.{Text, List, Map, Option, ℤ}

mutual
  pub data Value : Type 0 where
    value : Text → Text → Values → Value

  pub data Values : Type 0 where
    no_values : Values
    more_values : Value → Values → Values

pub record Endpoint : Type 0 where
  pub name : Text
  pub request : Option Value
  pub response : Option Value
  pub metadata : Map Text

pub record Node : Type 0 where
  pub id : Text
  pub address : Text
  pub port : ℤ
  pub metadata : Option (Map Text)

pub record Service : Type 0 where
  pub name : Text
  pub version : Text
  pub metadata : Map Text
  pub endpoints : List Endpoint
  pub nodes : List Node
