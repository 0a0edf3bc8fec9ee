-- ===== src/Era/Scope.antt =====
-- packages/api/src/lib/installation.ts: read scoping.
use telephone_booth_operator.Common.{ℕ, ◌≡◌, Bool, true, false, Option, none, some, arith}
use telephone_booth_operator.Store.{Db, is_in}
use telephone_booth_operator.Era.{find_active_installation}

-- The query parameter: absent or "", "all", or the id of an era.
pub data Param : Type 0 where
  unset all_eras : Param
  era : ℕ → Param

pub data InstallationScopeFilter : Type 0 where
  one : ℕ → InstallationScopeFilter
  all none_open : InstallationScopeFilter

unfoldable pub resolve_installation_scope : Db → Param → InstallationScopeFilter
resolve_installation_scope db all_eras = all
resolve_installation_scope db (era e) = one e
resolve_installation_scope db unset = elim (find_active_installation db) [
  | none ↦ none_open
  | some row ↦ one row.id
]

-- The `where` fragment, as the test that a row's `installationId` passes.
unfoldable pub scope_where : InstallationScopeFilter → Option ℕ → Bool
scope_where all i = true
scope_where none_open i = false
scope_where (one e) i = is_in e i

pub data CacheKey : Type 0 where
  all_key none_key : CacheKey
  era_key : ℕ → CacheKey

unfoldable pub scope_cache_key : InstallationScopeFilter → CacheKey
scope_cache_key all = all_key
scope_cache_key none_open = none_key
scope_cache_key (one e) = era_key e

-- Scopes with one cache key select the same rows: cached answers do not bleed across eras.
pub scope_cache_key-scope_where :
    (a b : InstallationScopeFilter) (i : Option ℕ)
    → scope_cache_key a ≡ scope_cache_key b
    → scope_where a i ≡ scope_where b i
unfolding scope_cache_key scope_where
scope_cache_key-scope_where (one a) (one b) i h = ground arith
scope_cache_key-scope_where (one a) all i h = ground arith
scope_cache_key-scope_where (one a) none_open i h = ground arith
scope_cache_key-scope_where all b i h = ground arith
scope_cache_key-scope_where none_open b i h = ground arith
