-- ===== src/Registry/Value.antt =====
-- The values of type `any` that tools return, as far as the program builds them itself. A map is a
-- list of its fields; `opaque` holds a value of another Go type.
use go_debug_agent.Prelude.{Bool}
use go_debug_agent.Prelude.Int.{ℤ}
use go_debug_agent.Prelude.Text.{Text}

mutual
  pub data Value (X : Type 0) : Type 0 where
    opaque : X → Value X
    bool : Bool → Value X
    int : ℤ → Value X
    str : Text → Value X
    arr : Items X → Value X
    obj : Fields X → Value X

  pub data Items (X : Type 0) : Type 0 where
    nil : Items X
    cons : Value X → Items X → Items X

  pub data Fields (X : Type 0) : Type 0 where
    end : Fields X
    field : Text → Value X → Fields X → Fields X
