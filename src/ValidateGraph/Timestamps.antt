-- ===== src/ValidateGraph/Timestamps.antt =====
-- cli/api/commands/validate_graph.ts: the time in the name of a shadow schema.
use sqlanvil.Base.{Bool, not, ◌++◌, ◌&&◌, ℕ, Text, true, [], ◌∷◌, ◌≡◌}
use sqlanvil.Paths.{is_start}
use sqlanvil.ValidateGraph.Shadows.{shadow_prefix, validate_shadow_suffix}

-- No place of a name, read in front of a rest, starts the word that marks a shadow.
abbrev pub is_unmarked : Text → Text → Bool
is_unmarked [] rest = true
is_unmarked (c ∷ cs) rest = not (is_start shadow_prefix ((c ∷ cs) ++ rest)) && is_unmarked cs rest

-- A shadow schema: its schema and the time of its validation.
abbrev pub Shadow : Type 0
Shadow = Text × ℕ

abbrev pub shadow_name : Shadow → Text
shadow_name (schema, time) = schema ++ b'_' ∷ validate_shadow_suffix time

abbrev pub IsUnmarked : Shadow → Type 0
IsUnmarked (schema, time) = is_unmarked schema (b'_' ∷ validate_shadow_suffix time) ≡ true
