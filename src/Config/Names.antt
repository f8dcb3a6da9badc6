-- ===== src/Config/Names.antt =====
-- checkDuplicateName of internal/config/server_validators.go, and the loop over the instances of
-- one provider in validateSCM, validateNotifiers and validateJira.
use tekton_events_relay.Prelude.{
  ℕ, suc, pos, String, Bool, true, false, ◌||◌, Option, none, some, List, [], ◌∷◌, ◌≡◌, refl, sym,
  ◌∙◌, arith, ◌==◌, ◌<>◌, eq_iff, eq_refl, Map, lookup, insert, lookup-insert, or_else, any,
  if◌then◌else◌, Bool-cases, Option-cases, inl, inr,
}
use tekton_events_relay.Config.{Checks, ValidationError}

-- map[string]map[string]bool
abbrev pub Names : Type 0
Names = Map (Map Bool)

abbrev pub seen : String → String → Names → Bool
seen path name names = or_else (lookup name (or_else (lookup path names) [])) false

abbrev pub mark : String → String → Names → Names
mark path name names = insert path (insert name true (or_else (lookup path names) [])) names

unfoldable pub check_duplicate_name : String → String → Names → Option String × Names
check_duplicate_name path name names =
    if seen path name names
    then (some (path <> ": duplicate instance name '" <> name <> "'"), names)
    else (none, mark path name names)

-- ValidationError.Error
abbrev pub error_text : ValidationError → String
error_text e = e.path <> ": " <> e.message

abbrev pub first_error : List ValidationError → Option String
first_error [] = none
first_error (e ∷ es) = some (error_text e)

-- `fmt.Sprintf("%s[%d]", path, i)`
abbrev pub indexed : Checks → String → ℕ → String
indexed checks path i = path <> "[" <> checks.decimal (pos i) <> "]"

-- `if err := …; err != nil { return err }`, with the map of names carried on.
abbrev pub and_then :
    Option String × Names → (Names → Option String × Names) → Option String × Names
and_then (some e, names) next = (some e, names)
and_then (none, names) next = next names

abbrev pub unless_errors :
    Option String → Names → (Names → Option String × Names) → Option String × Names
unless_errors (some e) names next = (some e, names)
unless_errors none names next = next names

module _ {I : Type 0} (checks : Checks) (path : String) (name_of : I → String)
    (validate : String → I → List ValidationError) where
  -- The loop, from the index `i` on.
  unfoldable pub validate_each : ℕ → List I → Names → Option String × Names
  unfolding check_duplicate_name
  validate_each i [] names = (none, names)
  validate_each i (inst ∷ rest) names =
      and_then (check_duplicate_name path (name_of inst) names) (λ marked.
        unless_errors (first_error (validate (indexed checks path i) inst)) marked
          (validate_each (suc i) rest))

  -- No name stands twice.
  abbrev pub IsDistinct : List I → Type 0
  IsDistinct [] = Unit
  IsDistinct (inst ∷ rest) =
      (any (λ other. name_of other == name_of inst) rest ≡ false) × IsDistinct rest

  abbrev pub AllPass : ℕ → List I → Type 0
  AllPass i [] = Unit
  AllPass i (inst ∷ rest) = (validate (indexed checks path i) inst ≡ []) × AllPass (suc i) rest

  abbrev AllNew : List I → Names → Type 0
  AllNew [] names = Unit
  AllNew (inst ∷ rest) names = (seen path (name_of inst) names ≡ false) × AllNew rest names

  seen-mark :
      (name read : String) (names : Names)
      → seen path read (mark path name names) ≡ (name == read || seen path read names)
  seen-mark name read names =
      rw
        (
          lookup-insert path path (insert name true (or_else (lookup path names) [])) names,
          eq_refl path,
        )
        (rw (lookup-insert name read true (or_else (lookup path names) [])) (ground arith))

  AllNew-mark :
      (name : String) (insts : List I) (names : Names)
      → AllNew insts (mark path name names)
      → (any (λ other. name_of other == name) insts ≡ false) × AllNew insts names
  AllNew-mark name [] names h = (refl, tt)
  AllNew-mark name (inst ∷ rest) names h =
      let ih = AllNew-mark name rest names h.1 in
      let here : (name == name_of inst || seen path (name_of inst) names) ≡ false =
        sym (seen-mark name (name_of inst) names) ∙ h.0 in
      (
        ground (arith, ih.0, eq_iff name (name_of inst), eq_iff (name_of inst) name),
        (ground arith, ih.1),
      )

  first_error-none : (es : List ValidationError) → first_error es ≡ none → es ≡ []
  first_error-none [] h = refl
  first_error-none (e ∷ es) h = absurd (cc)

  each_passes :
      (i : ℕ) (insts : List I) (names : Names)
      → (validate_each i insts names).0 ≡ none
      → AllPass i insts × AllNew insts names × IsDistinct insts
  unfolding validate_each
  each_passes i [] names h = (tt, tt, tt)
  each_passes i (inst ∷ rest) names h = elim (Bool-cases (seen path (name_of inst) names)) [
    | inl old ↦ absurd (let bad = rw old at h in cc)
    | inr new ↦ elim (Option-cases (first_error (validate (indexed checks path i) inst))) [
      | inr (e, f) ↦ absurd (let bad : some e ≡ none = rw (new, f) at h in cc)
      | inl f ↦
          let marked : Names = mark path (name_of inst) names in
          let later : (validate_each (suc i) rest marked).0 ≡ none = rw (new, f) at h in
          let ih = each_passes (suc i) rest marked later in
          let fresh = AllNew-mark (name_of inst) rest names ih.1 in
          (
            (first_error-none (validate (indexed checks path i) inst) f, ih.0),
            (new, fresh.1),
            (fresh.0, ih.2),
          )
    ]
  ]

  -- The instances of a provider that passes: each passes its own validator, and no two have the
  -- same name.
  pub validate_each_passes :
      (insts : List I) (names : Names)
      → (validate_each 0 insts names).0 ≡ none
      → AllPass 0 insts × IsDistinct insts
  validate_each_passes insts names h = let all = each_passes 0 insts names h in (all.0, all.2)
