-- ===== src/Targets/Laws.antt =====
-- common/strings/stringifier.ts: the key of a target determines the target.
use sqlanvil.Base.{
  Text, text_eq, Option, none, some, Bool, true, false, ◌∷◌, [], ◌++◌, codes, ◌≡◌, ◌≢◌, refl, ap,
  sym, ◌∙◌, arith,
}
use sqlanvil.Targets.Keys.{Target, with_text, with_flag, closing_text, stringify}

-- A quoted text is read back from the start of any text: it ends at its closing quote.
abbrev pub ReadsBack : (Text → Text) → (Text → Option (Text × Text)) → Type 0
ReadsBack quote read = (s rest : Text) → read (quote s ++ rest) ≡ some (s, rest)

module _ (quote : Text → Text) (read : Text → Option (Text × Text))
    (reads : ReadsBack quote read) where
  quote-cancel : (a b x y : Text) → quote a ++ x ≡ quote b ++ y → (a ≡ b) × (x ≡ y)
  quote-cancel a b x y h =
      let same : ◌≡◌ {A = Option (Text × Text)} (some (a, x)) (some (b, y)) =
        sym (reads a x) ∙ ap read h ∙ reads b y in
      (cc same, cc same)

  with_text-cancel :
      (key : Text) (d d' : Option Text) (x x' : Text)
      → (k : Text) × (rest : Text) × (x ≡ quote k ++ rest) × (k ≢ key)
      → (k : Text) × (rest : Text) × (x' ≡ quote k ++ rest) × (k ≢ key)
      → with_text quote key d x ≡ with_text quote key d' x'
      → (d ≡ d') × (x ≡ x')
  with_text-cancel key none none x x' o o' h = (refl, h)
  with_text-cancel key none (some v) x x' (k, rest, e, ne) o' h =
      absurd (ne ((quote-cancel k key rest _ (sym e ∙ h)).0))
  with_text-cancel key (some v) none x x' o (k, rest, e, ne) h =
      absurd (ne ((quote-cancel k key rest _ (sym e ∙ sym h)).0))
  with_text-cancel key (some v) (some v') x x' o o' h =
      let behind : quote v ++ b',' ∷ x ≡ quote v' ++ b',' ∷ x' =
        cc ((quote-cancel key key _ _ h).1) in
      let (same, rest) = quote-cancel v v' (b',' ∷ x) (b',' ∷ x') behind in (ap some same, cc rest)

  with_flag-cancel :
      (key : Text) (b b' : Option Bool) (x x' : Text)
      → (k : Text) × (rest : Text) × (x ≡ quote k ++ rest) × (k ≢ key)
      → (k : Text) × (rest : Text) × (x' ≡ quote k ++ rest) × (k ≢ key)
      → with_flag quote key b x ≡ with_flag quote key b' x'
      → (b ≡ b') × (x ≡ x')
  with_flag-cancel key none none x x' o o' h = (refl, h)
  with_flag-cancel key none (some true) x x' (k, rest, e, ne) o' h =
      absurd (ne ((quote-cancel k key rest _ (sym e ∙ h)).0))
  with_flag-cancel key none (some false) x x' (k, rest, e, ne) o' h =
      absurd (ne ((quote-cancel k key rest _ (sym e ∙ h)).0))
  with_flag-cancel key (some true) none x x' o (k, rest, e, ne) h =
      absurd (ne ((quote-cancel k key rest _ (sym e ∙ sym h)).0))
  with_flag-cancel key (some false) none x x' o (k, rest, e, ne) h =
      absurd (ne ((quote-cancel k key rest _ (sym e ∙ sym h)).0))
  with_flag-cancel key (some true) (some true) x x' o o' h =
      let behind = (quote-cancel key key _ _ h).1 in (refl, cc behind)
  with_flag-cancel key (some false) (some false) x x' o o' h =
      let behind = (quote-cancel key key _ _ h).1 in (refl, cc behind)
  with_flag-cancel key (some true) (some false) x x' o o' h =
      let behind = (quote-cancel key key _ _ h).1 in absurd (ground (arith, behind))
  with_flag-cancel key (some false) (some true) x x' o o' h =
      let behind = (quote-cancel key key _ _ h).1 in absurd (ground (arith, behind))

  closing_text-cancel :
      (key : Text) (s s' : Option Text)
      → closing_text quote key s ≡ closing_text quote key s'
      → s ≡ s'
  closing_text-cancel key none none h = refl
  closing_text-cancel key none (some v) h = absurd (ground (arith, h))
  closing_text-cancel key (some v) none h = absurd (ground (arith, h))
  closing_text-cancel key (some v) (some v') h =
      let member : quote key ++ b':' ∷ (quote v ++ 125 ∷ [])
          ≡ quote key ++ b':' ∷ (quote v' ++ 125 ∷ []) =
        cc h in
      let value : quote v ++ 125 ∷ [] ≡ quote v' ++ 125 ∷ [] =
        cc ((quote-cancel key key _ _ member).1) in
      ap some ((quote-cancel v v' _ _ value).0)

  -- What stands behind the database starts with another property.
  flag_starts :
      (b : Option Bool) (rest : Text)
      → (k : Text) × (more : Text) × (with_flag quote
            (codes "includeDependentAssertions")
            b
            (quote (codes "name") ++ rest)
          ≡ quote k ++ more)
        × (k ≢ codes "database")
  unfolding codes
  flag_starts none rest = (codes "name", rest, refl, λ h. ground (arith, h))
  flag_starts (some true) rest =
      (codes "includeDependentAssertions", _, refl, λ h. ground (arith, h))
  flag_starts (some false) rest =
      (codes "includeDependentAssertions", _, refl, λ h. ground (arith, h))

  name_starts :
      (rest : Text)
      → (k : Text) × (more : Text) × (quote (codes "name") ++ rest ≡ quote k ++ more)
        × (k ≢ codes "includeDependentAssertions")
  unfolding codes
  name_starts rest = (codes "name", rest, refl, λ h. ground (arith, h))

  -- Where a text in quotes is read back, targets with one key have the same database, schema, name and
  -- flag.
  pub stringify-injective : (a b : Target) → stringify quote a ≡ stringify quote b → a ≡ b
  unfolding stringify
  stringify-injective a b h =
      let value = λ (t : Target).
        let v : Text = quote t.name ++ closing_text quote (codes "schema") t.schema in v in
      let named = λ (t : Target). let v : Text = quote (codes "name") ++ b':' ∷ value t in v in
      let flagged = λ (t : Target).
        let v : Text =
          with_flag quote (codes "includeDependentAssertions") t.include_dependent_assertions
            (named t) in
        v in
      let h0 : with_text quote (codes "database") a.database (flagged a)
          ≡ with_text quote (codes "database") b.database (flagged b) =
        cc h in
      let (d, h1) =
        with_text-cancel (codes "database") a.database b.database (flagged a) (flagged b)
          (flag_starts a.include_dependent_assertions _)
          (flag_starts b.include_dependent_assertions _) h0 in
      let (i, h2) =
        with_flag-cancel (codes "includeDependentAssertions") a.include_dependent_assertions
          b.include_dependent_assertions (named a) (named b) (name_starts _) (name_starts _) h1 in
      let h3 : b':' ∷ value a ≡ b':' ∷ value b =
        (quote-cancel (codes "name") (codes "name") (b':' ∷ value a) (b':' ∷ value b) h2).1 in
      let (n, h4) =
        quote-cancel a.name b.name (closing_text quote (codes "schema") a.schema)
          (closing_text quote (codes "schema") b.schema) (cc h3) in
      let s = closing_text-cancel (codes "schema") a.schema b.schema h4 in
      λ j. record { database = d j; schema = s j; name = n j; include_dependent_assertions = i j }
