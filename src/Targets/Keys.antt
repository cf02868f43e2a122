-- ===== src/Targets/Keys.antt =====
-- The target, and the key under which sets and maps hold it (`targetStringifier.stringify`).
use sqlanvil.Base.{
  Text, text_eq, Option, none, some, Bool, true, false, ◌∷◌, [], ◌++◌, ◌&&◌, HasEq, ◌≡◌, ◌↔◌, arith,
  option_beq, option_beq_iff, option_text_eq, list_beq, list_beq_iff, nat_eq, codes,
}

pub record Target : Type 0 where
  pub database : Option Text
  pub schema : Option Text
  pub name : Text
  pub include_dependent_assertions : Option Bool

abbrev bool_beq : Bool → Bool → Bool
bool_beq true true = true
bool_beq false false = true
bool_beq _ _ = false

bool_beq_iff : (a b : Bool) → (bool_beq a b ≡ true) ↔ (a ≡ b)
bool_beq_iff a b = ground arith

instance abbrev bool_eq : HasEq Bool
bool_eq = record { equal = bool_beq; equal_iff = bool_beq_iff }

unfoldable pub target_beq : Target → Target → Bool
target_beq a b =
    option_beq a.database b.database
    && option_beq a.schema b.schema
    && list_beq a.name b.name
    && option_beq a.include_dependent_assertions b.include_dependent_assertions

pub target_beq_iff : (a b : Target) → (target_beq a b ≡ true) ↔ (a ≡ b)
unfolding target_beq
target_beq_iff a b = ground (
  arith,
  option_beq_iff a.database b.database,
  option_beq_iff a.schema b.schema,
  list_beq_iff a.name b.name,
  option_beq_iff a.include_dependent_assertions b.include_dependent_assertions,
)

-- Two targets have one key when their fields agree, as `stringify-injective` shows.
instance abbrev pub target_eq : HasEq Target
target_eq = record { equal = target_beq; equal_iff = target_beq_iff }

-- The JSON object that `stringify` prints: the properties that are present, sorted by name. `quote` is
-- the runtime's `JSON.stringify` of a text.
module _ (quote : Text → Text) where
  -- A property and what follows it behind a comma.
  abbrev pub with_text : Text → Option Text → Text → Text
  with_text key none rest = rest
  with_text key (some v) rest = quote key ++ b':' ∷ (quote v ++ b',' ∷ rest)

  abbrev pub with_flag : Text → Option Bool → Text → Text
  with_flag key none rest = rest
  with_flag key (some true) rest = quote key ++ b':' ∷ b't' ∷ b'r' ∷ b'u' ∷ b'e' ∷ b',' ∷ rest
  with_flag key (some false) rest =
      quote key ++ b':' ∷ b'f' ∷ b'a' ∷ b'l' ∷ b's' ∷ b'e' ∷ b',' ∷ rest

  -- The last property, behind a comma, and the closing brace.
  abbrev pub closing_text : Text → Option Text → Text
  closing_text key none = 125 ∷ []
  closing_text key (some v) = b',' ∷ (quote key ++ b':' ∷ (quote v ++ 125 ∷ []))

  unfoldable pub stringify : Target → Text
  unfolding codes
  stringify t =
      123
      ∷ with_text (codes "database") t.database (
          with_flag (codes "includeDependentAssertions") t.include_dependent_assertions (
            quote (codes "name")
            ++ b':' ∷ (quote t.name ++ closing_text (codes "schema") t.schema)))
