-- ===== src/Config.antt =====
-- osbenchmark/config.py: `Scope` and the properties of `Config`, a dictionary by scope, section and
-- key. A value is of any type, and `exists` is that it was found, where no value is `None`.
pub mod Scopes
pub mod Sections
mod Tests
use solr_benchmark.Prelude.{
  ℕ, zero, suc, ◌+◌, String, Bool, true, false, not, ◌&&◌, ◌||◌, Option, none, some, List, [], ◌∷◌,
  ◌==◌, ltb, if◌then◌else◌, is_some, ◌≡◌, refl, ap, ◌↔◌, arith,
}
use solr_benchmark.Prelude.Dict.{Key, Dict, get, put, has, string_key, pair_key}
use solr_benchmark.Result.{Result, ok, raise, config_error}

pub data Scope : Type 0 where
  application application_override benchmark test_procedure invocation : Scope

-- The value of the enumeration.
abbrev pub value : Scope → ℕ
value application = 1
value application_override = 2
value benchmark = 3
value test_procedure = 4
value invocation = 5

abbrev pub same_scope : Scope → Scope → Bool
same_scope s t = value s == value t

pub same_scope_iff : (s t : Scope) → (same_scope s t ≡ true) ↔ (s ≡ t)
same_scope_iff application application = (λ e. refl, λ e. refl)
same_scope_iff application_override application_override = (λ e. refl, λ e. refl)
same_scope_iff benchmark benchmark = (λ e. refl, λ e. refl)
same_scope_iff test_procedure test_procedure = (λ e. refl, λ e. refl)
same_scope_iff invocation invocation = (λ e. refl, λ e. refl)
same_scope_iff application application_override = (cc, cc)
same_scope_iff application benchmark = (cc, cc)
same_scope_iff application test_procedure = (cc, cc)
same_scope_iff application invocation = (cc, cc)
same_scope_iff application_override application = (cc, cc)
same_scope_iff application_override benchmark = (cc, cc)
same_scope_iff application_override test_procedure = (cc, cc)
same_scope_iff application_override invocation = (cc, cc)
same_scope_iff benchmark application = (cc, cc)
same_scope_iff benchmark application_override = (cc, cc)
same_scope_iff benchmark test_procedure = (cc, cc)
same_scope_iff benchmark invocation = (cc, cc)
same_scope_iff test_procedure application = (cc, cc)
same_scope_iff test_procedure application_override = (cc, cc)
same_scope_iff test_procedure benchmark = (cc, cc)
same_scope_iff test_procedure invocation = (cc, cc)
same_scope_iff invocation application = (cc, cc)
same_scope_iff invocation application_override = (cc, cc)
same_scope_iff invocation benchmark = (cc, cc)
same_scope_iff invocation test_procedure = (cc, cc)

instance abbrev pub scope_key : Key Scope
scope_key = record { same = same_scope; same_iff = same_scope_iff }

-- The tuple that `_k` makes.
abbrev pub OptKey : Type 0
OptKey = Scope × (String × String)

instance abbrev pub opt_key : Key OptKey
opt_key = pair_key scope_key (pair_key string_key string_key)

abbrev pub Opts : Type 0 → Type 0
Opts V = Dict OptKey V

-- `Scope(start_from.value - 1)`
abbrev pub enclosing : Scope → Scope
enclosing invocation = test_procedure
enclosing test_procedure = benchmark
enclosing benchmark = application_override
enclosing application_override = application
enclosing application = application

-- scopes_per_key[key].value < scope.value
abbrev pub is_narrower : Scope → Option Scope → Bool
is_narrower scope none = false
is_narrower scope (some known) = ltb (value known) (value scope)

module _ {V : Type 0} where
  pub add : Scope → String → String → V → Opts V → Opts V
  add scope section key v opts_ = put (scope, (section, key)) v opts_

  -- The recursion of `_resolve_scope`, on the value of the scope that it starts from.
  abbrev pub resolve_at : ℕ → Scope → String → String → Opts V → Scope
  resolve_at zero scope section key opts_ = scope
  resolve_at (suc n) scope section key opts_ =
      let further = resolve_at n (enclosing scope) section key opts_ in
      if has (scope, (section, key)) opts_ then scope else further

  pub resolve_scope : String → String → Opts V → Scope
  resolve_scope section key opts_ = resolve_at 4 invocation section key opts_

  abbrev pub value_or : Option V → Option V → Bool → Result (Option V)
  value_or (some v) default_value mandatory = ok (some v)
  value_or none default_value mandatory = if mandatory then raise config_error else ok default_value

  pub opts : String → String → Option V → Bool → Opts V → Result (Option V)
  unfolding resolve_scope
  opts section key default_value mandatory opts_ =
      value_or (get (resolve_scope section key opts_, (section, key)) opts_) default_value mandatory

  -- The loop of `all_opts`: the options of the section, and the scopes that they are from.
  pub all_from : String → Opts V → Dict String V → Dict String Scope → Dict String V
  all_from section [] opts_in_section scopes_per_key = opts_in_section
  all_from section (((scope, (source_section, key)), v) ∷ opts_) opts_in_section scopes_per_key =
      let overridden =
        all_from section opts_ (put key v opts_in_section) (put key scope scopes_per_key) in
      let kept = all_from section opts_ opts_in_section scopes_per_key in
      if string_key.same source_section section
        && (not (has key opts_in_section) || is_narrower scope (get key scopes_per_key))
      then overridden
      else kept

  pub all_opts : String → Opts V → Dict String V
  unfolding all_from
  all_opts section opts_ = all_from section opts_ [] []
