-- ===== src/Json.antt =====
-- What `json.loads` returns, as far as the program looks into it. An object is a dict: it holds
-- a key once, in the order of the text.
use wterm.Prelude.{Bool, Option, none, some, Text, ◌==◌, if◌then◌else◌, nat_key, list_key}
use wterm.Prelude.Int.{ℤ}

mutual
  pub data Json : Type 0 where
    null : Json
    bool : Bool → Json
    int : ℤ → Json
    -- a number with a fraction or an exponent; the program only asks whether there is one
    float : Json
    str : Text → Json
    array : Items → Json
    object : Members → Json

  pub data Items : Type 0 where
    nil : Items
    item : Json → Items → Items

  pub data Members : Type 0 where
    end : Members
    member : Text → Json → Members → Members

-- d.get(key)
unfoldable pub find : Text → Members → Option Json
find key end = none
find key (member k value rest) = if k == key then some value else find key rest
