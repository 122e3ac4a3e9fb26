-- ===== src/Types.antt =====
-- types.go: identifiers, property values, nodes and edges. A Go string is its bytes. An identifier is
-- a `uint64`, kept as a number whose range is stated where it matters. A map is an association
-- list, and a map that may be nil is an `Option` of one.
use goraphdb.Common.{ℕ, List, Option, Bool}

abbrev pub Bytes : Type 0
Bytes = List ℕ

abbrev pub NodeId : Type 0
NodeId = ℕ

abbrev pub EdgeId : Type 0
EdgeId = ℕ

-- The dynamic types that `interface{}` holds in a property map; a number is kept as its bit pattern,
-- and `other` is any other dynamic type.
mutual
  pub data Value : Type 0 where
    null other : Value
    bool : Bool → Value
    int float : ℕ → Value
    str blob : Bytes → Value
    list : Values → Value
    dict : Fields → Value

  pub data Values : Type 0 where
    nil : Values
    cons : Value → Values → Values

  pub data Fields : Type 0 where
    end : Fields
    field : Bytes → Value → Fields → Fields

abbrev pub PropMap : Type 0
PropMap = List (Bytes × Value)

abbrev pub Props : Type 0
Props = Option PropMap

pub record Node : Type 0 where
  pub id : NodeId
  pub labels : List Bytes
  pub props : Props

pub record Edge : Type 0 where
  pub id : EdgeId
  pub from : NodeId
  pub to : NodeId
  pub label : Bytes
  pub props : Props

pub data Direction : Type 0 where
  outgoing incoming both : Direction
