-- ===== src/Provider/Values.antt =====
-- Parsed JSON with the operations of Python that app/providers/alldebrid.py applies to it.
use all_debrid_proxy.Base.{
  zero, Bool, true, false, not, Option, none, some, [], if◌then◌else◌, ℤ, pos, Text, text_eq,
}

-- A number that Python parses as a float, by what the client asks of it: whether it is 0.0, `int(x)` where
-- that does not raise, and `str(x)`.
pub record Decimal : Type 0 where
  pub is_zero : Bool
  pub whole : Option ℤ
  pub shown : Text

-- The keys of an object are distinct.
mutual
  pub data Json : Type 0 where
    null : Json
    boolean : Bool → Json
    number : ℤ → Json
    decimal : Decimal → Json
    text : Text → Json
    array : Items → Json
    object : Fields → Json

  pub data Items : Type 0 where
    nil : Items
    cons : Json → Items → Items

  pub data Fields : Type 0 where
    end : Fields
    field : Text → Json → Fields → Fields

-- `d.get(key)`
unfoldable pub get : Text → Fields → Option Json
unfolding text_eq
get key Fields.end = none
get key (Fields.field k v fs) = if text_eq k key then some v else get key fs

-- `bool(v)`
unfoldable pub truthy : Json → Bool
truthy Json.null = false
truthy (Json.boolean b) = b
truthy (Json.number (pos zero)) = false
truthy (Json.decimal x) = not x.is_zero
truthy (Json.text []) = false
truthy (Json.array Items.nil) = false
truthy (Json.object Fields.end) = false
truthy _ = true

-- `d.get(a) or ...`
unfoldable pub or_json : Option Json → Option Json → Option Json
unfolding truthy
or_json none later = later
or_json (some v) later = if truthy v then some v else later
