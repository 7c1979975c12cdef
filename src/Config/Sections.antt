-- ===== src/Config/Sections.antt =====
-- `all_opts` against `opts`.
use solr_benchmark.Prelude.{
  ◌≡◌, refl, sym, ap, ◌∙◌, String, Bool, true, false, not, ◌||◌, Option, none, some, [], ◌∷◌, ltb,
  if◌then◌else◌, Bool-cases, inl, inr, arith,
}
use solr_benchmark.Prelude.Dict.{Dict, get, put, has, get-put, get-put_self, string_key}
use solr_benchmark.Config.{Scope, value, Opts, opts, value_or, is_narrower, all_from, all_opts}
use solr_benchmark.Config.Scopes.{prefer, narrowest, value_of, scope_of, opts_lem}

module _ {V : Type 0} where
  prefer-narrower :
      (a b : Scope × V) (rest : Option (Scope × V))
      → ltb (value a.0) (value b.0) ≡ true
      → prefer (some a) (prefer (some b) rest) ≡ prefer (some b) rest
  prefer-narrower a b none e = rw e refl
  prefer-narrower a b (some c) e = elim (Bool-cases (ltb (value b.0) (value c.0))) [
    | inl below ↦
        let f : ltb (value a.0) (value c.0) ≡ true = ground (arith, e, below) in rw (below, f) refl
    | inr above ↦ rw (above, e) refl
  ]

  prefer-wider :
      (a b : Scope × V) (rest : Option (Scope × V))
      → ltb (value a.0) (value b.0) ≡ false
      → prefer (some a) (prefer (some b) rest) ≡ prefer (some a) rest
  prefer-wider a b none e = rw e refl
  prefer-wider a b (some c) e = elim (Bool-cases (ltb (value b.0) (value c.0))) [
    | inl below ↦ rw below refl
    | inr above ↦
        let f : ltb (value a.0) (value c.0) ≡ false = ground (arith, e, above) in
        rw (above, e, f) refl
  ]

  module _ (section key : String) where
    -- The result for the key, from what is known of it.
    abbrev Results : Opts V → Type 0
    Results opts_ =
        (options : Dict String V) (scopes : Dict String Scope) (known : Option (Scope × V))
        → get key options ≡ value_of known
        → get key scopes ≡ scope_of known
        → get key (all_from section opts_ options scopes)
          ≡ value_of (prefer known (narrowest section key opts_))

    -- An entry of the property itself.
    Results-same :
        (scope : Scope) (v : V) (opts_ : Opts V)
        → Results opts_
        → (options : Dict String V) (scopes : Dict String Scope) (known : Option (Scope × V))
        → get key options ≡ value_of known
        → get key scopes ≡ scope_of known
        → get key (
            if not (has key options) || is_narrower scope (get key scopes)
            then all_from section opts_ (put key v options) (put key scope scopes)
            else all_from section opts_ options scopes)
          ≡ value_of (prefer known (prefer (some (scope, v)) (narrowest section key opts_)))
    Results-same scope v opts_ results options scopes none o s = rw o (
        results (put key v options) (put key scope scopes) (some (scope, v))
          (get-put_self key v options) (get-put_self key scope scopes))
    Results-same scope v opts_ results options scopes (some (known, u)) o s =
        elim (Bool-cases (ltb (value known) (value scope))) [
          | inl below ↦
              rw
                (
                  o,
                  s,
                  below,
                  prefer-narrower (known, u) (scope, v) (narrowest section key opts_) below,
                )
                (results (put key v options) (put key scope scopes) (some (scope, v))
                  (get-put_self key v options) (get-put_self key scope scopes))
          | inr above ↦
              rw
                (
                  o,
                  s,
                  above,
                  prefer-wider (known, u) (scope, v) (narrowest section key opts_) above,
                )
                (results options scopes (some (known, u)) o s)
        ]

    Results-all_from : (opts_ : Opts V) → Results opts_
    unfolding all_from narrowest
    Results-all_from [] options scopes none o s = o
    Results-all_from [] options scopes (some known) o s = o
    Results-all_from (((scope, (source_section, source_key)), v) ∷ opts_) options scopes known o s =
        elim (Bool-cases (string_key.same source_section section)) [
          | inr elsewhere ↦ rw elsewhere (Results-all_from opts_ options scopes known o s)
          | inl here ↦ elim (Bool-cases (string_key.same source_key key)) [
            | inl same ↦
                let e : source_key ≡ key = (string_key.same_iff source_key key).0 same in
                let same' : string_key.same key key ≡ true = (string_key.same_iff key key).1 refl in
                rw (e, here, same')
                  (Results-same scope v opts_ (Results-all_from opts_) options scopes known o s)
            | inr other ↦
                elim (Bool-cases
                  (not (has source_key options) || is_narrower scope (get source_key scopes))) [
                    | inl overrides ↦
                        rw (here, other, overrides)
                          (Results-all_from opts_ (put source_key v options)
                            (put source_key scope scopes) known (rw (get-put, other) o)
                            (rw (get-put, other) s))
                    | inr keeps ↦
                        rw (here, other, keeps) (Results-all_from opts_ options scopes known o s)
                  ]
          ]
        ]

  -- A property is what the options of its section have for its key; without any, the default if it
  -- is optional, and an error if it is mandatory.
  pub opts-eq-get-all_opts :
      (section key : String) (default_value : Option V) (mandatory : Bool) (opts_ : Opts V)
      → opts section key default_value mandatory opts_
        ≡ value_or (get key (all_opts section opts_)) default_value mandatory
  unfolding all_opts get
  opts-eq-get-all_opts section key default_value mandatory opts_ =
      opts_lem section key default_value mandatory opts_
      ∙ ap (λ found. value_or found default_value mandatory)
          (sym (Results-all_from section key opts_ [] [] none refl refl))
