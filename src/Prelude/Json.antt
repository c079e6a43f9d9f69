-- ===== src/Prelude/Json.antt =====
-- JSON values, as far as the operator writes them by hand in a patch.
use Prim.Native.String.{String}

mutual
  pub data Json : Type 0 where
    null : Json
    text : String → Json
    array : Items → Json
    object : Fields → Json

  pub data Items : Type 0 where
    nil : Items
    cons : Json → Items → Items

  pub data Fields : Type 0 where
    end : Fields
    field : String → Json → Fields → Fields
