-- ===== src/Json.antt =====
-- JSON values as `encoding/json` reads and writes them. A text is modelled by the value that it
-- parses to; number literals are integers, or other literals kept as their text.
pub mod Decode
use go_acp_server.Base.{String, Bool, List, [], ◌∷◌, Option, none, some}
use go_acp_server.Go.Numbers.{ℤ}

mutual
  pub data Json : Type 0 where
    null : Json
    bool : Bool → Json
    num : ℤ → Json
    float : String → Json
    str : String → Json
    arr : Items → Json
    obj : Members → Json

  pub data Items : Type 0 where
    nil : Items
    cons : Json → Items → Items

  pub data Members : Type 0 where
    end : Members
    member : String → Json → Members → Members

abbrev pub items : Items → List Json
items nil = []
items (cons v vs) = v ∷ items vs

abbrev pub members : Members → List (String × Json)
members end = []
members (member k v ms) = (k, v) ∷ members ms

abbrev pub of_items : List Json → Items
of_items [] = nil
of_items (v ∷ vs) = cons v (of_items vs)

abbrev pub of_members : List (String × Json) → Members
of_members [] = end
of_members ((k, v) ∷ ms) = member k v (of_members ms)

-- json.Marshal of a slice, and of a map or a struct whose fields are given in their order.
abbrev pub array : List Json → Json
array vs = arr (of_items vs)

abbrev pub object : List (String × Json) → Json
object ms = obj (of_members ms)

-- A `json.RawMessage` field: absent, or the value whose text it holds.
abbrev pub Raw : Type 0
Raw = Option Json
