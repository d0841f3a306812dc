-- ===== src/Json.antt =====
-- The values that `json.loads` gives, and the lookups that the program makes in them.
pub mod Lookup
use mybench.Base.{Bool, Option, [], bytes_eq, if◌then◌else◌, none, some, ℕ}
use mybench.Ledger.{Text}
use mybench.Sessions.{text_is}

-- Of a number with a fraction or an exponent: whether it is zero, and its text. `negative n` is
-- -(n + 1).
mutual
  pub data Json : Type 0 where
    null : Json
    boolean : Bool → Json
    natural : ℕ → Json
    negative : ℕ → Json
    real : Bool → Text → Json
    text : Text → Json
    array : Items → Json
    object : Members → Json

  pub data Items : Type 0 where
    nil : Items
    cons : Json → Items → Items

  -- A dictionary in its order of insertion.
  pub data Members : Type 0 where
    end : Members
    member : Text → Json → Members → Members

-- `value.get(key)`
unfoldable pub get : Text → Members → Option Json
get key end = none
get key (member k v rest) = let later = get key rest in if bytes_eq k key then some v else later

-- A string where there is one.
abbrev pub text_of : Option Json → Option Text
text_of (some (text t)) = some t
text_of _ = none

-- A dictionary where there is one.
abbrev pub object_of : Option Json → Option Members
object_of (some (object m)) = some m
object_of _ = none

-- `value.get(key) == t` for a text `t`
abbrev pub has_text : Text → Text → Members → Bool
has_text key t m = text_is (text_of (get key m)) t

-- A list where there is one.
abbrev pub array_of : Option Json → Option Items
array_of (some (array vs)) = some vs
array_of _ = none

-- `{**m, key: v}`, and `m[key] = v`
unfoldable pub set_member : Text → Json → Members → Members
set_member key v end = member key v end
set_member key v (member k w rest) =
    let later = set_member key v rest in
    if bytes_eq k key then member k v rest else member k w later

-- `{k: v for k, v in record.items() if k != key}`
unfoldable pub without : Text → Members → Members
without key end = end
without key (member k v rest) =
    let others = without key rest in if bytes_eq k key then others else member k v others
