-- ===== src/Json.antt =====
-- JsonValue of packages/events-sdk/src/json.ts, with the `undefined` that a handler may return or hold.
-- Numbers are natural.
use bumpa_achievement_system.Common.{ℕ, String, Bool, false, true, ◌==◌, if◌then◌else◌}

mutual
  pub data Json : Type 0 where
    undefined : Json
    null : Json
    boolean : Bool → Json
    number : ℕ → Json
    string : String → Json
    array : Items → Json
    object : Fields → Json

  pub data Items : Type 0 where
    nil : Items
    cons : Json → Items → Items

  -- The own properties in their order.
  pub data Fields : Type 0 where
    end : Fields
    field : String → Json → Fields → Fields

-- A property that is not there reads as undefined.
unfoldable pub get : String → Fields → Json
get k end = undefined
get k (field j v fs) = if j == k then v else get k fs

-- Object.prototype.hasOwnProperty
unfoldable pub has_own : String → Fields → Bool
has_own k end = false
has_own k (field j v fs) = if j == k then true else has_own k fs

-- a ?? b
abbrev pub or_else : Json → Json → Json
or_else undefined b = b
or_else null b = b
or_else (boolean x) b = boolean x
or_else (number n) b = number n
or_else (string s) b = string s
or_else (array l) b = array l
or_else (object fs) b = object fs

-- v === true
abbrev pub is_true : Json → Bool
is_true (boolean b) = b
is_true undefined = false
is_true null = false
is_true (number n) = false
is_true (string s) = false
is_true (array l) = false
is_true (object fs) = false
