-- ===== src/Session/Rename/Laws.antt =====
-- core/session.ts: `alterActionName` renames actions and the references to them alike.
use sqlanvil.Base.{
  Option, none, some, true, List, ◌∷◌, [], map, put, get-put, contains, if◌then◌else◌, ◌==◌, ==_iff,
  ◌≡◌, refl, arith, ap, ◌∙◌, Text, ◌++◌, append-nil, append_assoc,
}
use mathlib.Core.Path.{fun_ext}
use sqlanvil.Targets.{Target, target_eq, truthy, text_or_empty}
use sqlanvil.Session.Graph.{ActionProto, targets_of}
use sqlanvil.Session.Rename.{
  Naming, new_target, suffix_with_underscore, prefix_with_underscore, TargetMap, declared, renamed,
  updated_target, update_parent, rewrite_action, is_renaming, alter_action_name,
}

-- The rule: the target of an action is renamed, and any other target is left as it is.
abbrev pub rename_if_action : Naming → List ActionProto → Target → Target
rename_if_action n actions t = if contains (targets_of actions) t then new_target n t else t

-- A text with the suffix behind an underscore, and with the prefix before one.
abbrev pub suffixed : Text → Option Text → Text
suffixed x none = x
suffixed x (some []) = x
suffixed x (some (c ∷ cs)) = x ++ b'_' ∷ c ∷ cs

abbrev pub prefixed : Option Text → Text → Text
prefixed none x = x
prefixed (some []) x = x
prefixed (some (c ∷ cs)) x = (c ∷ cs) ++ b'_' ∷ x

abbrev pub suffixed_database : Option Text → Option Text → Text
suffixed_database none suffix = []
suffixed_database (some []) suffix = []
suffixed_database (some (c ∷ cs)) suffix = suffixed (c ∷ cs) suffix

-- The target of an action under the names of the configuration; a database that is not set becomes
-- the empty one.
abbrev pub named_target : Naming → Target → Target
named_target n t = record t {
  database = some (suffixed_database t.database n.database_suffix);
  schema = some (suffixed (text_or_empty t.schema) n.schema_suffix);
  name = prefixed n.table_prefix t.name;
}

abbrev pub name_if_action : Naming → List ActionProto → Target → Target
name_if_action n actions t = if contains (targets_of actions) t then named_target n t else t

append-suffix : (x : Text) (s : Option Text) → x ++ suffix_with_underscore s ≡ suffixed x s
append-suffix x none = append-nil x
append-suffix x (some []) = append-nil x
append-suffix x (some (c ∷ cs)) = refl

append-prefix : (s : Option Text) (x : Text) → prefix_with_underscore s ++ x ≡ prefixed s x
append-prefix none x = refl
append-prefix (some []) x = refl
append-prefix (some (c ∷ cs)) x = append_assoc (c ∷ cs) (b'_' ∷ []) x

append-database :
    (d s : Option Text)
    → (if truthy d then text_or_empty d ++ suffix_with_underscore s else text_or_empty d)
      ≡ suffixed_database d s
append-database none s = refl
append-database (some []) s = refl
append-database (some (c ∷ cs)) s = append-suffix (c ∷ cs) s

new_target-eq-named_target : (n : Naming) (t : Target) → new_target n t ≡ named_target n t
unfolding new_target
new_target-eq-named_target n t = λ i. record t {
  database = some (append-database t.database n.database_suffix i);
  schema = some (append-suffix (text_or_empty t.schema) n.schema_suffix i);
  name = append-prefix n.table_prefix t.name i;
}

abbrev update_by_rule : Naming → List ActionProto → Option Target → Option Target
update_by_rule n actions none = none
update_by_rule n actions (some t) = some (name_if_action n actions t)

-- An action with its target, its dependencies and its parent renamed by the rule.
abbrev pub rewrite_by_rule : Naming → List ActionProto → ActionProto → ActionProto
rewrite_by_rule n actions a = record a {
  target = named_target n a.target;
  dependency_targets = map (name_if_action n actions) a.dependency_targets;
  parent_action = update_by_rule n actions a.parent_action;
}

updated-put :
    (m : TargetMap) (k v t : Target)
    → updated_target (put m k v) t ≡ (if k == t then v else updated_target m t)
unfolding updated_target
updated-put m k v t = ground (arith, get-put m k t v)

updated-declared :
    (ds : List Target) (m : TargetMap)
    → ((t : Target) → updated_target m t ≡ t)
    → (t : Target) → updated_target (declared m ds) t ≡ t
updated-declared [] m h t = h t
updated-declared (d ∷ ds) m h t =
    updated-declared ds (put m d d) (λ u. ground (arith, updated-put m d d u, ==_iff d u, h u)) t

updated-renamed :
    (n : Naming) (actions : List ActionProto) (m : TargetMap) (t : Target)
    → updated_target (renamed n m actions) t
      ≡ (if contains (targets_of actions) t then new_target n t else updated_target m t)
updated-renamed n [] m t = refl
updated-renamed n (a ∷ rest) m t = ground (
  arith,
  updated-renamed n rest (put m a.target (new_target n a.target)) t,
  updated-put m a.target (new_target n a.target) t,
  ==_iff a.target t,
  ==_iff t a.target,
)

pub updated-rule :
    (n : Naming) (actions : List ActionProto) (ds : List Target) (t : Target)
    → updated_target (renamed n (declared [] ds) actions) t ≡ rename_if_action n actions t
unfolding updated_target
updated-rule n actions ds t =
    ground
      (arith, updated-renamed n actions (declared [] ds) t, updated-declared ds [] (λ u. refl) t)

updated-named :
    (n : Naming) (actions : List ActionProto) (ds : List Target) (t : Target)
    → updated_target (renamed n (declared [] ds) actions) t ≡ name_if_action n actions t
updated-named n actions ds t =
    updated-rule n actions ds t
    ∙ ap (λ u. if contains (targets_of actions) t then u else t) (new_target-eq-named_target n t)

rewrite-rule :
    (n : Naming) (actions : List ActionProto) (ds : List Target) (a : ActionProto)
    → rewrite_action n (renamed n (declared [] ds) actions) a ≡ rewrite_by_rule n actions a
rewrite-rule n actions ds a = λ i. record a {
  target = new_target-eq-named_target n a.target i;
  dependency_targets = map (λ t. updated-named n actions ds t i) a.dependency_targets;
  parent_action = parent a.parent_action i;
}
  where
    parent :
        (o : Option Target)
        → update_parent (renamed n (declared [] ds) actions) o ≡ update_by_rule n actions o
    parent none = refl
    parent (some t) = ap (λ u. some u) (updated-named n actions ds t)

-- Where a prefix or a suffix is set, `alterActionName` gives the target of each action the prefix and
-- the suffixes that are set, and a database suffix only where there is a database; it does so in the
-- dependencies and parents exactly for those targets that name an action.
pub alter_action_name_lem :
    (n : Naming) (actions : List ActionProto) (declarations : List Target)
    → is_renaming n ≡ true
    → alter_action_name n actions declarations ≡ map (rewrite_by_rule n actions) actions
unfolding alter_action_name
alter_action_name_lem n actions ds h =
    rw h (ap (λ f. map f actions) (fun_ext (rewrite-rule n actions ds)))
