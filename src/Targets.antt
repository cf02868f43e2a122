-- ===== src/Targets.antt =====
-- core/targets.ts and common/strings/stringifier.ts: the target that names an action, its key in
-- the program's sets and maps, and its readable name.
mod Keys
pub mod Laws
pub mod Examples
unfoldable pub use Keys.*
use sqlanvil.Base.{Text, Option, none, some, Bool, ◌∷◌, [], ◌++◌, if◌then◌else◌, any}

-- A text that JavaScript tests as true: present and not empty.
abbrev pub truthy : Option Text → Bool
truthy none = Bool.false
truthy (some []) = Bool.false
truthy (some (_ ∷ _)) = Bool.true

-- What `join` makes of an element that may be undefined.
abbrev pub text_or_empty : Option Text → Text
text_or_empty none = []
text_or_empty (some s) = s

-- `targetAsReadableString`: `[database.]schema.name`, also where there is no schema.
unfoldable pub target_as_readable_string : Target → Text
target_as_readable_string t =
    let short = text_or_empty t.schema ++ b'.' ∷ t.name in
    if truthy t.database then text_or_empty t.database ++ b'.' ∷ short else short
