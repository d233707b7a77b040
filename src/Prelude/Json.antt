-- ===== src/Prelude/Json.antt =====
-- Values that `json.loads` returns, and Python's access to them. Integers are ℤ; floats do not
-- occur in what is modelled. An object is the list of its entries, in order.
use Prim.Native.Nat.{ℕ}
use Prim.Native.String.{String}
use mathlib.Core.Bool.{Bool, true, false}
use mathlib.Core.Option.{Option, none, some}
use text.Mathlib.Text.{◌==◌}

pub data ℤ : Type 0 where
  pos : ℕ → ℤ
  negsuc : ℕ → ℤ

mutual
  pub data Json : Type 0 where
    null : Json
    bool : Bool → Json
    int : ℤ → Json
    str : String → Json
    arr : Items → Json
    obj : Fields → Json

  pub data Items : Type 0 where
    nil : Items
    cons : Json → Items → Items

  pub data Fields : Type 0 where
    end : Fields
    field : String → Json → Fields → Fields

abbrev pub find : String → Fields → Option Json
find k end = none
find k (field j v fs) = elim (j == k) [ true ↦ some v | false ↦ find k fs ]

-- `value.get(key)` of a dict; `None` is the value for a missing key, and here for what is no dict,
-- where Python would raise an AttributeError.
abbrev pub get : Json → String → Json
get (obj fs) k = elim (find k fs) [ none ↦ null | some v ↦ v ]
get _ k = null
