-- ===== src/Session/Compile/Chunks.antt =====
-- core/session.ts: a graph that is created without an error holds every action of the session.
use sqlanvil.Base.{
  Text, text_eq, Bool, true, false, ◌==◌, List, [], ◌∷◌, ◌++◌, map, filter_by, contains, All,
  All-filter_by, nat_beq, nat_beq_iff, ◌≡◌, refl, ap, ◌∙◌, arith, Bool-cases, inl, inr,
}
use sqlanvil.Targets.{Target, target_eq}
use sqlanvil.Runner.Retry.{Outcome, returned, threw}
use sqlanvil.Session.Graph.{ActionProto, CompilationError, targets_of}
use sqlanvil.Session.Depend.Laws.{append-nil_iff}
use sqlanvil.Session.Create.{
  tables, operations, assertions, declarations, tests, notebooks, data_preparations, exports,
  imports, Action, Chunk, extracts, scripts, chunk_of, chunk_number, is_in, chunk_actions,
  add_compiled, thrown_error, compile_graph_chunk, create_graph, create_errors, compiled_chunk,
  chunk_errors,
}
use sqlanvil.Session.Compile.Lists.{all_targets, chunk_list, in_chunk}

-- What an action compiles to has the action's own target.
abbrev pub IsOwn : Target → Outcome Text ActionProto → Type 0
IsOwn t (returned p) = p.target ≡ t
IsOwn t (threw e) = Unit

abbrev pub HasOwnTarget : Action → Type 0
HasOwnTarget a = IsOwn a.target a.compiled

abbrev pub action_targets : List Action → List Target
action_targets actions = map (λ (a : Action). a.target) actions

targets-add_compiled :
    (caller_file : Text) (a : Action) (o : Outcome Text ActionProto)
    (r : List ActionProto × List CompilationError)
    → IsOwn a.target o
    → (add_compiled caller_file a o r).1 ≡ []
    → (targets_of (add_compiled caller_file a o r).0 ≡ a.target ∷ targets_of r.0) × (r.1 ≡ [])
targets-add_compiled caller_file a (returned p) r own h =
    (cc own, ((append-nil_iff a.reported r.1).0 h).1)
targets-add_compiled caller_file a (threw e) r own h =
    let thrown_ = ((append-nil_iff a.reported (thrown_error caller_file a e ∷ r.1)).0 h).1 in
    absurd (ground (arith, thrown_))

targets-compile_graph_chunk :
    (caller_file : Text) (actions : List Action)
    → All HasOwnTarget actions
    → (compile_graph_chunk caller_file actions).1 ≡ []
    → targets_of (compile_graph_chunk caller_file actions).0 ≡ action_targets actions
unfolding compile_graph_chunk
targets-compile_graph_chunk caller_file [] own h = refl
targets-compile_graph_chunk caller_file (a ∷ rest) own h =
    let (head, none_) =
      targets-add_compiled caller_file a a.compiled (compile_graph_chunk caller_file rest) own.0
        h in
    head ∙ ap (λ r. a.target ∷ r) (targets-compile_graph_chunk caller_file rest own.1 none_)

own-filter_by :
    (p : Action → Bool) (actions : List Action)
    → All HasOwnTarget actions
    → All HasOwnTarget (filter_by p actions)
own-filter_by p actions own = All-filter_by HasOwnTarget p actions own

own_chunk : (k : Chunk) → nat_beq (chunk_number k) (chunk_number k) ≡ true
own_chunk k = (nat_beq_iff (chunk_number k) (chunk_number k)).1 refl

kept_first :
    (p : Action → Bool) (a : Action) (rest : List Action) (t : Target)
    → p a ≡ true
    → (t == a.target) ≡ true
    → contains (action_targets (filter_by p (a ∷ rest))) t ≡ true
kept_first p a rest t h e = ground (arith, h, e)

kept_later :
    (p : Action → Bool) (a : Action) (rest : List Action) (t : Target)
    → contains (action_targets (filter_by p rest)) t ≡ true
    → contains (action_targets (filter_by p (a ∷ rest))) t ≡ true
kept_later p a rest t h = ground (arith, h)

contains_rest :
    (a : Action) (rest : List Action) (t : Target)
    → contains (action_targets (a ∷ rest)) t ≡ true
    → (t == a.target) ≡ false
    → contains (action_targets rest) t ≡ true
contains_rest a rest t h e = ground (arith, h, e)

-- An action stands in the chunk of its class.
find_chunk :
    (actions : List Action) (t : Target)
    → contains (action_targets actions) t ≡ true
    → (k : Chunk) × (contains (action_targets (chunk_actions k actions)) t ≡ true)
find_chunk [] t h = absurd (ground (arith, h))
find_chunk (a ∷ rest) t h = elim (Bool-cases (t == a.target)) [
  | inl here ↦ (
    chunk_of a.type,
    kept_first (is_in (chunk_of a.type)) a rest t (own_chunk (chunk_of a.type)) here,
  )
  | inr other ↦
      let (k, there) = find_chunk rest t (contains_rest a rest t h other) in
      (k, kept_later (is_in k) a rest t there)
]

nil_left {ℓ} : {A : Type ℓ} (xs ys : List A) → xs ++ ys ≡ [] → xs ≡ []
nil_left xs ys h = ((append-nil_iff xs ys).0 h).0

nil_right {ℓ} : {A : Type ℓ} (xs ys : List A) → xs ++ ys ≡ [] → ys ≡ []
nil_right xs ys h = ((append-nil_iff xs ys).0 h).1

module _ (caller_file : Text) (actions : List Action) where
  errors_of_chunk :
      (k : Chunk) → create_errors caller_file actions ≡ [] → chunk_errors caller_file actions k ≡ []
  unfolding create_errors
  errors_of_chunk k h =
      let e = chunk_errors caller_file actions in
      let h1 = nil_right (e tables) _ h in
      let h2 = nil_right (e operations) _ h1 in
      let h3 = nil_right (e assertions) _ h2 in
      let h4 = nil_right (e declarations) _ h3 in
      let h5 = nil_right (e tests) _ h4 in
      let h6 = nil_right (e notebooks) _ h5 in
      let h7 = nil_right (e data_preparations) _ h6 in
      let h8 = nil_right (e exports) _ h7 in
      let h9 = nil_right (e imports) _ h8 in
      elim k as (λ j. chunk_errors caller_file actions j ≡ []) [
        | tables ↦ nil_left (e tables) _ h
        | operations ↦ nil_left (e operations) _ h1
        | assertions ↦ nil_left (e assertions) _ h2
        | declarations ↦ nil_left (e declarations) _ h3
        | tests ↦ nil_left (e tests) _ h4
        | notebooks ↦ nil_left (e notebooks) _ h5
        | data_preparations ↦ nil_left (e data_preparations) _ h6
        | exports ↦ nil_left (e exports) _ h7
        | imports ↦ nil_left (e imports) _ h8
        | extracts ↦ nil_left (e extracts) _ h9
        | scripts ↦ nil_right (e extracts) _ h9
      ]

  listed :
      (k : Chunk)
      → chunk_list (create_graph caller_file actions) k ≡ compiled_chunk caller_file actions k
  unfolding create_graph
  listed tables = refl
  listed operations = refl
  listed assertions = refl
  listed declarations = refl
  listed tests = refl
  listed notebooks = refl
  listed data_preparations = refl
  listed exports = refl
  listed imports = refl
  listed extracts = refl
  listed scripts = refl

  -- Without an error every action is in the graph, where it compiles to something of its own target.
  pub create_graph-targets :
      (t : Target)
      → All HasOwnTarget actions
      → create_errors caller_file actions ≡ []
      → contains (action_targets actions) t ≡ true
      → contains (all_targets (create_graph caller_file actions)) t ≡ true
  create_graph-targets t own none_ h =
      let (k, there) = find_chunk actions t h in
      let same =
        targets-compile_graph_chunk caller_file (chunk_actions k actions)
          (own-filter_by (is_in k) actions own) (errors_of_chunk k none_) in
      in_chunk (create_graph caller_file actions) k t (
        ap (λ (xs : List ActionProto). contains (targets_of xs) t) (listed k)
        ∙ ap (λ (xs : List Target). contains xs t) same
        ∙ there)
