-- ===== src/Session/Compile/Passes.antt =====
-- core/session.ts: the passes of `compile` keep a graph closed: each dependency names one of its
-- actions.
pub mod Renaming
use sqlanvil.Base.{
  Text, text_eq, Option, none, some, Bool, true, false, not, ◌&&◌, ◌||◌, if◌then◌else◌, List, [],
  ◌∷◌, ◌++◌, map, filter_by, contains, contains-append, any, All, ◌≡◌, ◌⊎◌, refl, ap, sym, ◌∙◌,
  arith, Bool-cases, inl, inr, subst, ==_iff,
}
use sqlanvil.Targets.{Target, target_eq}
use sqlanvil.Session.Graph.{ActionProto, CompiledGraph, CompilationError, targets_of}
use sqlanvil.Session.Extracts.{
  referring_actions, remove_unreferenced_extracts, drop_pruned, pruned_targets, has_extracts,
}
use sqlanvil.Session.Extracts.Laws.{is_referenced, remove_unreferenced_extracts_lem}
use sqlanvil.Session.Unique.{
  remove_non_unique_actions, filtered_actions, is_unique_action, uniqueness_errors, keep_unique,
}
use sqlanvil.Session.Unique as Unique
use sqlanvil.Session.Depend.Laws.{append-nil_iff}
use sqlanvil.Session.Create.{
  tables, operations, assertions, declarations, tests, notebooks, data_preparations, exports,
  imports, Chunk, extracts, scripts,
}
use sqlanvil.Session.Compile.{passed_actions, map_actions}
use sqlanvil.Session.Compile.Closed.{IsWithin}
use sqlanvil.Session.Compile.Lists.{all_targets, chunk_list, in_chunk}

All-left {ℓ κ} : {A : Type ℓ} (P : A → Type κ) (xs ys : List A) → All P (xs ++ ys) → All P xs
All-left P [] ys h = tt
All-left P (x ∷ xs) ys h = (h.0, All-left P xs ys h.1)

All-right {ℓ κ} : {A : Type ℓ} (P : A → Type κ) (xs ys : List A) → All P (xs ++ ys) → All P ys
All-right P [] ys h = h
All-right P (x ∷ xs) ys h = All-right P xs ys h.1

All-both {ℓ κ} :
    {A : Type ℓ} (P : A → Type κ) (xs ys : List A) → All P xs → All P ys → All P (xs ++ ys)
All-both P [] ys hx hy = hy
All-both P (x ∷ xs) ys hx hy = (hx.0, All-both P xs ys hx.1 hy)

All-under {ℓ κ} :
    {A : Type ℓ} (P : A → Type κ) (xs ys zs : List A)
    → (All P ys → All P zs)
    → All P (xs ++ ys)
    → All P (xs ++ zs)
All-under P xs ys zs f h = All-both P xs zs (All-left P xs ys h) (f (All-right P xs ys h))

-- What holds of the actions of the passes holds of those that the extracts are kept for.
pub All-referring {κ} :
    (P : ActionProto → Type κ) (g : CompiledGraph)
    → All P (passed_actions g)
    → All P (referring_actions g)
All-referring P g = All-under P g.tables _ _ (
    All-under P g.assertions _ _ (
      All-under P g.operations _ _ (
        All-under P g.notebooks _ _ (
          All-under P g.data_preparations _ _
            (All-under P g.exports _ _ (All-under P g.imports _ _ (All-right P g.extracts _)))))))

split_targets :
    (xs ys : List ActionProto) (t : Target)
    → contains (targets_of (xs ++ ys)) t ≡ true
    → (contains (targets_of xs) t ≡ true) ⊎ (contains (targets_of ys) t ≡ true)
split_targets [] ys t h = inr h
split_targets (x ∷ xs) ys t h = ground (arith, h, split_targets xs ys t)

abbrev pub IsFound : CompiledGraph → Target → Type 0
IsFound g t = (k : Chunk) × (contains (targets_of (chunk_list g k)) t ≡ true)

find_or :
    (g : CompiledGraph) (k : Chunk) (ys : List ActionProto) (t : Target)
    → (contains (targets_of ys) t ≡ true → IsFound g t)
    → contains (targets_of (chunk_list g k ++ ys)) t ≡ true
    → IsFound g t
find_or g k ys t rest h = elim (split_targets (chunk_list g k) ys t h) [
  | inl here ↦ (k, here)
  | inr there ↦ rest there
]

find_passed :
    (g : CompiledGraph) (t : Target)
    → contains (targets_of (passed_actions g)) t ≡ true
    → IsFound g t
find_passed g t = find_or g tables _ t (
    find_or g assertions _ t (
      find_or g operations _ t (
        find_or g notebooks _ t (
          find_or g data_preparations _ t (
            find_or g exports _ t (
              find_or g imports _ t
                (find_or g extracts _ t (find_or g scripts _ t (λ h. (tests, h))))))))))

-- A target of the graph stands in one of its lists.
pub from_chunk : (g : CompiledGraph) (t : Target) → contains (all_targets g) t ≡ true → IsFound g t
from_chunk g t h = elim (Bool-cases (contains (targets_of (passed_actions g)) t)) [
  | inl passed ↦ find_passed g t passed
  | inr declared_ ↦ (
    declarations,
    ground (
      arith,
      h,
      declared_,
      contains-append (targets_of (passed_actions g)) (targets_of g.declarations) t,
    ),
  )
]

-- Each dependency of an action other than an extract is the target of an action of the graph.
abbrev pub IsClosed : CompiledGraph → Type 0
IsClosed g =
    All (λ (a : ActionProto). IsWithin (all_targets g) a.dependency_targets) (referring_actions g)

-- `removeUnreferencedExtracts` writes to the extracts and the targets only.
abbrev with_extracts : CompiledGraph → CompiledGraph → CompiledGraph
with_extracts g h = record g { extracts = h.extracts; targets = h.targets }

drop_pruned-shape :
    (ts : List Target) (g : CompiledGraph) → drop_pruned ts g ≡ with_extracts g (drop_pruned ts g)
drop_pruned-shape [] g = refl
drop_pruned-shape (t ∷ ts) g = refl

if-shape :
    (b : Bool) (g h : CompiledGraph)
    → h ≡ with_extracts g h
    → (if b then h else g) ≡ with_extracts g (if b then h else g)
if-shape true g h e = e
if-shape false g h e = refl

remove-shape :
    (g : CompiledGraph)
    → remove_unreferenced_extracts g ≡ with_extracts g (remove_unreferenced_extracts g)
unfolding remove_unreferenced_extracts
remove-shape g = if-shape (has_extracts g.extracts) g _ (drop_pruned-shape (pruned_targets g) g)

contains-referenced :
    (actions xs : List ActionProto) (t : Target)
    → is_referenced actions t ≡ true
    → contains (targets_of xs) t ≡ true
    → contains (targets_of (filter_by (λ (e : ActionProto). is_referenced actions e.target) xs)) t
      ≡ true
contains-referenced actions [] t r h = h
contains-referenced actions (x ∷ xs) t r h =
    ground (arith, r, h, contains-referenced actions xs t r, ==_iff t x.target)

-- A target that some action depends on stays in the graph.
remove-keeps :
    (g : CompiledGraph) (t : Target)
    → is_referenced (referring_actions g) t ≡ true
    → contains (all_targets g) t ≡ true
    → contains (all_targets (remove_unreferenced_extracts g)) t ≡ true
remove-keeps g t r h =
    let (k, there) = from_chunk g t h in
    rw (remove-shape g)
      (in_chunk (with_extracts g (remove_unreferenced_extracts g)) k t (kept_in k there))
  where
    kept_in :
        (k : Chunk)
        → contains (targets_of (chunk_list g k)) t ≡ true
        → contains (targets_of (chunk_list (with_extracts g (remove_unreferenced_extracts g)) k)) t
          ≡ true
    kept_in extracts there =
        rw ((remove_unreferenced_extracts_lem g).0)
          (contains-referenced (referring_actions g) g.extracts t r there)
    kept_in tables there = there
    kept_in operations there = there
    kept_in assertions there = there
    kept_in declarations there = there
    kept_in tests there = there
    kept_in notebooks there = there
    kept_in data_preparations there = there
    kept_in exports there = there
    kept_in imports there = there
    kept_in scripts there = there

-- The targets that an action depends on are referenced.
IsWithin-referenced :
    (all more : List Target) (actions : List ActionProto)
    → ((t : Target)
        → is_referenced actions t ≡ true
        → contains all t ≡ true
        → contains more t ≡ true)
    → All (λ (a : ActionProto). IsWithin all a.dependency_targets) actions
    → All (λ (a : ActionProto). IsWithin more a.dependency_targets) actions
IsWithin-referenced all more actions keeps = go actions (λ t h. h)
  where
    deps :
        (ds : List Target)
        → ((t : Target) → contains ds t ≡ true → is_referenced actions t ≡ true)
        → IsWithin all ds
        → IsWithin more ds
    deps [] sub h = tt
    deps (d ∷ ds) sub (h, hs) = (
      keeps d (sub d (ground (arith, ==_iff d d))) h,
      deps ds (λ t e. sub t (ground (arith, e))) hs,
    )

    go :
        (rest : List ActionProto)
        → ((t : Target) → is_referenced rest t ≡ true → is_referenced actions t ≡ true)
        → All (λ (a : ActionProto). IsWithin all a.dependency_targets) rest
        → All (λ (a : ActionProto). IsWithin more a.dependency_targets) rest
    go [] sub h = tt
    go (a ∷ rest) sub (h, hs) = (
      deps a.dependency_targets (λ t e. sub t (ground (arith, e))) h,
      go rest (λ t e. sub t (ground (arith, e))) hs,
    )

pub IsClosed-remove : (g : CompiledGraph) → IsClosed g → IsClosed (remove_unreferenced_extracts g)
IsClosed-remove g h =
    let same : referring_actions (remove_unreferenced_extracts g) ≡ referring_actions g =
      ap referring_actions (remove-shape g) in
    rw same (
      IsWithin-referenced (all_targets g) (all_targets (remove_unreferenced_extracts g))
        (referring_actions g) (remove-keeps g) h)
