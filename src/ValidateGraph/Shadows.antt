-- ===== src/ValidateGraph/Shadows.antt =====
-- cli/api/commands/validate_graph.ts: the shadow schemas of a validation, and the references of an
-- action to itself. `resolveTarget` is a parameter, as in the source.
use sqlanvil.Base.{
  ℕ, zero, suc, ◌+◌, ◌-◌, ◌*◌, ◌/◌, ◌%◌, ltb, leb, Text, text_eq, nat_eq, Bool, false, ◌&&◌,
  if◌then◌else◌, ◌==◌, List, [], ◌∷◌, ◌++◌, Option, none, some, length, take, drop, filter_by, map,
}
use sqlanvil.Targets.{Target, text_or_empty}
use sqlanvil.Paths.{is_start, is_empty}

-- `sqlanvil_validate_`
abbrev pub shadow_prefix : Text
shadow_prefix =
    b's' ∷ b'q' ∷ b'l' ∷ b'a' ∷ b'n' ∷ b'v' ∷ b'i' ∷ b'l' ∷ b'_' ∷ b'v' ∷ b'a' ∷ b'l' ∷ b'i' ∷ b'd'
    ∷ b'a' ∷ b't' ∷ b'e' ∷ b'_' ∷ []

-- The decimal digits of a number, in front of others; as many rounds as the number are enough.
abbrev pub digits_before : ℕ → ℕ → Text → Text
digits_before zero n rest = (b'0' + n % 10) ∷ rest
digits_before (suc fuel) n rest =
    let more = digits_before fuel (n / 10) ((b'0' + n % 10) ∷ rest) in
    if ltb n 10 then (b'0' + n % 10) ∷ rest else more

abbrev pub decimal : ℕ → Text
decimal n = digits_before n n []

-- `validateShadowSuffix`
unfoldable pub validate_shadow_suffix : ℕ → Text
validate_shadow_suffix now = shadow_prefix ++ decimal now

abbrev pub is_decimal : ℕ → Bool
is_decimal c = leb b'0' c && leb c b'9'

-- `Number` of the longest run of digits, for one below 2^53.
abbrev pub read_digits : ℕ → Text → ℕ
read_digits value [] = value
read_digits value (c ∷ cs) =
    let more = read_digits (value * 10 + (c - b'0')) cs in if is_decimal c then more else value

abbrev pub number_at : Text → Option ℕ
number_at [] = none
number_at (c ∷ cs) = if is_decimal c then some (read_digits 0 (c ∷ cs)) else none

abbrev pub or_else : Option ℕ → Option ℕ → Option ℕ
or_else (some n) later = some n
or_else none later = later

-- `parseShadowTimestamp`: the first place where digits stand behind the prefix.
unfoldable pub parse_shadow_timestamp : Text → Option ℕ
parse_shadow_timestamp [] = none
parse_shadow_timestamp (c ∷ cs) =
    or_else
      (if is_start shadow_prefix (c ∷ cs)
        then number_at (drop (length shadow_prefix) (c ∷ cs))
        else none)
      (parse_shadow_timestamp cs)

abbrev pub is_older : ℕ → ℕ → Option ℕ → Bool
is_older now max_age none = false
is_older now max_age (some ts) = ltb (ts + max_age) now

-- `shadowSchemasToSweep`; `nowMs - ts > maxAgeMs` is written as a sum.
unfoldable pub shadow_schemas_to_sweep : List Text → ℕ → ℕ → List Text
unfolding parse_shadow_timestamp
shadow_schemas_to_sweep names now max_age =
    filter_by (λ name. is_older now max_age (parse_shadow_timestamp name)) names

-- `sql.split(from).join(to)`. The characters of an occurrence behind its first are passed over by
-- `skip`.
unfoldable pub replace_from : Text → Text → ℕ → Text → Text
replace_from from to skip [] = []
replace_from from to (suc skip) (c ∷ cs) = replace_from from to skip cs
replace_from from to zero (c ∷ cs) =
    let behind = replace_from from to (length from - 1) cs in
    let passed = replace_from from to 0 cs in
    if is_start from (c ∷ cs) then to ++ behind else c ∷ passed

-- The empty text stands between any two characters.
abbrev pub between_all : Text → Text → Text
between_all to [] = []
between_all to (c ∷ []) = c ∷ []
between_all to (c ∷ d ∷ cs) = c ∷ to ++ between_all to (d ∷ cs)

unfoldable pub split_and_join : Text → Text → Text → Text
unfolding replace_from
split_and_join from to sql =
    if is_empty from then between_all to sql else replace_from from to 0 sql

abbrev pub ends_in : Text → Text → Bool
ends_in suffix s = drop (length s - length suffix) s == suffix

-- An action as far as the rewrite reads it; an assertion has no incremental query.
pub record QueryAction : Type 0 where
  pub target : Target
  pub query : Option Text
  pub incremental_query : Option Text

pub record QueryGraph : Type 0 where
  pub tables : List QueryAction
  pub assertions : List QueryAction

abbrev pub map_text : (Text → Text) → Option Text → Option Text
map_text f none = none
map_text f (some s) = some (if is_empty s then s else f s)

module _ (resolve_target : Target → Text) where
  abbrev pub production_target : Text → Target → Target
  production_target suffix t = record t {
    schema = some (take (length (text_or_empty t.schema) - length suffix) (text_or_empty t.schema));
  }

  unfoldable pub rewrite_self_reference : Text → QueryAction → QueryAction
  unfolding split_and_join
  rewrite_self_reference suffix a =
      let shadow_name = resolve_target a.target in
      let production_name = resolve_target (production_target suffix a.target) in
      let rewrite_query = map_text (split_and_join shadow_name production_name) in
      let rewritten = record a {
        query = rewrite_query a.query;
        incremental_query = rewrite_query a.incremental_query;
      } in
      if ends_in suffix (text_or_empty a.target.schema) then rewritten else a

  -- `rewriteSelfReferences`
  unfoldable pub rewrite_self_references : QueryGraph → Text → QueryGraph
  unfolding rewrite_self_reference
  rewrite_self_references g shadow_suffix =
      let suffix = b'_' ∷ shadow_suffix in
      record {
        tables = map (rewrite_self_reference suffix) g.tables;
        assertions = map (rewrite_self_reference suffix) g.assertions;
      }
