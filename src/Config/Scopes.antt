-- ===== src/Config/Scopes.antt =====
-- The value of a property is that of its narrowest scope, for one property and for a whole section.
use solr_benchmark.Prelude.{
  ◌≡◌, refl, String, Bool, true, false, ◌&&◌, Option, none, some, [], ◌∷◌, ltb, if◌then◌else◌,
  Bool-cases, Option-cases, inl, inr,
}
use solr_benchmark.Prelude.Dict.{get, string_key}
use solr_benchmark.Config.{
  Scope, application, application_override, benchmark, test_procedure, invocation, value,
  same_scope, OptKey, opt_key, Opts, resolve_scope, value_or, opts,
}

module _ {V : Type 0} where
  -- Of two scoped values the first, unless the second is of a narrower scope.
  abbrev pub prefer : Option (Scope × V) → Option (Scope × V) → Option (Scope × V)
  prefer none other = other
  prefer (some a) none = some a
  prefer (some a) (some b) = if ltb (value a.0) (value b.0) then some b else some a

  abbrev pub scoped : Bool → Scope → V → Option (Scope × V)
  scoped found scope v = if found then some (scope, v) else none

  -- The first entry of the narrowest scope that has the property.
  unfoldable pub narrowest : String → String → Opts V → Option (Scope × V)
  narrowest section key [] = none
  narrowest section key (((scope, (source_section, source_key)), v) ∷ opts_) =
      prefer
        (scoped (string_key.same source_section section && string_key.same source_key key) scope v)
        (narrowest section key opts_)

  abbrev pub value_of : Option (Scope × V) → Option V
  value_of none = none
  value_of (some (scope, v)) = some v

  abbrev pub scope_of : Option (Scope × V) → Option Scope
  scope_of none = none
  scope_of (some (scope, v)) = some scope

  -- The first value there is, from the narrowest scope on.
  abbrev first_of : Option V → Option V → Option V → Option V → Option V → Option (Scope × V)
  first_of (some v) b c d e = some (invocation, v)
  first_of none (some v) c d e = some (test_procedure, v)
  first_of none none (some v) d e = some (benchmark, v)
  first_of none none none (some v) e = some (application_override, v)
  first_of none none none none (some v) = some (application, v)
  first_of none none none none none = none

  abbrev or_else : Bool → V → Option V → Option V
  or_else new v old = if new then some v else old

  first_of-new :
      (scope : Scope) (v : V) (a b c d e : Option V)
      → first_of
          (or_else (same_scope scope invocation) v a)
          (or_else (same_scope scope test_procedure) v b)
          (or_else (same_scope scope benchmark) v c)
          (or_else (same_scope scope application_override) v d)
          (or_else (same_scope scope application) v e)
        ≡ prefer (some (scope, v)) (first_of a b c d e)
  first_of-new invocation v (some x) b c d e = refl
  first_of-new invocation v none (some x) c d e = refl
  first_of-new invocation v none none (some x) d e = refl
  first_of-new invocation v none none none (some x) e = refl
  first_of-new invocation v none none none none (some x) = refl
  first_of-new invocation v none none none none none = refl
  first_of-new test_procedure v (some x) b c d e = refl
  first_of-new test_procedure v none (some x) c d e = refl
  first_of-new test_procedure v none none (some x) d e = refl
  first_of-new test_procedure v none none none (some x) e = refl
  first_of-new test_procedure v none none none none (some x) = refl
  first_of-new test_procedure v none none none none none = refl
  first_of-new benchmark v (some x) b c d e = refl
  first_of-new benchmark v none (some x) c d e = refl
  first_of-new benchmark v none none (some x) d e = refl
  first_of-new benchmark v none none none (some x) e = refl
  first_of-new benchmark v none none none none (some x) = refl
  first_of-new benchmark v none none none none none = refl
  first_of-new application_override v (some x) b c d e = refl
  first_of-new application_override v none (some x) c d e = refl
  first_of-new application_override v none none (some x) d e = refl
  first_of-new application_override v none none none (some x) e = refl
  first_of-new application_override v none none none none (some x) = refl
  first_of-new application_override v none none none none none = refl
  first_of-new application v (some x) b c d e = refl
  first_of-new application v none (some x) c d e = refl
  first_of-new application v none none (some x) d e = refl
  first_of-new application v none none none (some x) e = refl
  first_of-new application v none none none none (some x) = refl
  first_of-new application v none none none none none = refl

  get-found :
      (s scope : Scope) (section key source_section source_key : String) (v : V) (opts_ : Opts V)
      → (string_key.same source_section section && string_key.same source_key key) ≡ true
      → get (s, (section, key)) (((scope, (source_section, source_key)), v) ∷ opts_)
        ≡ or_else (same_scope scope s) v (get (s, (section, key)) opts_)
  unfolding get
  get-found s scope section key source_section source_key v opts_ found =
      elim (Bool-cases (same_scope scope s)) [
        | inl same ↦ rw (same, found) refl
        | inr apart ↦ rw apart refl
      ]

  get-other :
      (s scope : Scope) (section key source_section source_key : String) (v : V) (opts_ : Opts V)
      → (string_key.same source_section section && string_key.same source_key key) ≡ false
      → get (s, (section, key)) (((scope, (source_section, source_key)), v) ∷ opts_)
        ≡ get (s, (section, key)) opts_
  unfolding get
  get-other s scope section key source_section source_key v opts_ other =
      elim (Bool-cases (same_scope scope s)) [
        | inl same ↦ rw (same, other) refl
        | inr apart ↦ rw apart refl
      ]

  get-empty : (k : OptKey) → get {V = V} k [] ≡ none
  unfolding get
  get-empty k = refl

  first_of-get :
      (section key : String) (opts_ : Opts V)
      → first_of
          (get (invocation, (section, key)) opts_)
          (get (test_procedure, (section, key)) opts_)
          (get (benchmark, (section, key)) opts_)
          (get (application_override, (section, key)) opts_)
          (get (application, (section, key)) opts_)
        ≡ narrowest section key opts_
  unfolding narrowest
  first_of-get section key [] =
      rw
        (
          get-empty (invocation, (section, key)),
          get-empty (test_procedure, (section, key)),
          get-empty (benchmark, (section, key)),
          get-empty (application_override, (section, key)),
          get-empty (application, (section, key)),
        )
        refl
  first_of-get section key (((scope, (source_section, source_key)), v) ∷ opts_) =
      elim (Bool-cases (string_key.same source_section section && string_key.same source_key key)) [
        | inl found ↦
            let at = λ (s : Scope).
              get-found s scope section key source_section source_key v opts_ found in
            rw
              (
                at invocation,
                at test_procedure,
                at benchmark,
                at application_override,
                at application,
                found,
                ← (first_of-get section key opts_),
              )
              (first_of-new scope v _ _ _ _ _)
        | inr other ↦
            let at = λ (s : Scope).
              get-other s scope section key source_section source_key v opts_ other in
            rw
              (
                at invocation,
                at test_procedure,
                at benchmark,
                at application_override,
                at application,
                other,
              )
              (first_of-get section key opts_)
      ]

  get-resolve_scope :
      (section key : String) (opts_ : Opts V)
      → get (resolve_scope section key opts_, (section, key)) opts_
        ≡ value_of (narrowest section key opts_)
  unfolding resolve_scope
  get-resolve_scope section key opts_ =
      rw (← (first_of-get section key opts_))
        (elim (Option-cases (get (invocation, (section, key)) opts_)) [
          | inr (x, a) ↦ rw (a) a
          | inl a ↦ elim (Option-cases (get (test_procedure, (section, key)) opts_)) [
            | inr (x, b) ↦ rw (a, b) b
            | inl b ↦ elim (Option-cases (get (benchmark, (section, key)) opts_)) [
              | inr (x, c) ↦ rw (a, b, c) c
              | inl c ↦ elim (Option-cases (get (application_override, (section, key)) opts_)) [
                | inr (x, d) ↦ rw (a, b, c, d) d
                | inl d ↦ elim (Option-cases (get (application, (section, key)) opts_)) [
                  | inr (x, e) ↦ rw (a, b, c, d, e) refl
                  | inl e ↦ rw (a, b, c, d, e) refl
                ]
              ]
            ]
          ]
        ])

  -- A property is the value of the first entry of the narrowest scope that has it; without any, the
  -- default if it is optional, and an error if it is mandatory.
  pub opts_lem :
      (section key : String) (default_value : Option V) (mandatory : Bool) (opts_ : Opts V)
      → opts section key default_value mandatory opts_
        ≡ value_or (value_of (narrowest section key opts_)) default_value mandatory
  unfolding opts
  opts_lem section key default_value mandatory opts_ = rw (get-resolve_scope section key opts_) refl
