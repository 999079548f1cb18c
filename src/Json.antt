-- ===== src/Json.antt =====
-- A JSON value, as `JSON.parse` returns it: the payloads that the client reads by key.
use transmission_ui.Prelude.{Bool, List, [], ◌∷◌, Text}
use transmission_ui.Prelude.Int.{ℤ}

mutual
  pub data Json : Type 0 where
    null : Json
    bool : Bool → Json
    num : ℤ → Json
    str : Text → Json
    arr : Items → Json
    obj : Fields → Json

  pub data Items : Type 0 where
    nil : Items
    cons : Json → Items → Items

  pub data Fields : Type 0 where
    end : Fields
    field : Text → Json → Fields → Fields

abbrev pub fields : Fields → List (Text × Json)
fields end = []
fields (field k v fs) = (k, v) ∷ fields fs

-- The properties of an object; any other value has none.
abbrev pub props : Json → List (Text × Json)
props (obj fs) = fields fs
props _ = []
