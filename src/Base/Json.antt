-- ===== src/Base/Json.antt =====
-- The values that `json` reads and writes, as payloads, results and message bodies hold them. The
-- modelled code passes them on and looks at texts only, so a number is kept by its literal.
use Prim.Native.String.{String}
use mathlib.Core.Bool.{Bool}

mutual
  pub data Json : Type 0 where
    null : Json
    boolean : Bool → Json
    number text : String → Json
    array : Items → Json
    object : Members → Json

  pub data Items : Type 0 where
    nil : Items
    cons : Json → Items → Items

  pub data Members : Type 0 where
    end : Members
    member : String → Json → Members → Members
