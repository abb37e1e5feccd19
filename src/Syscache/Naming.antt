-- ===== src/Syscache/Naming.antt =====
-- named_type of types.hpp: a type that is looked up by its name.
use cppgres.Common.{ℕ, not, List, [], ◌∷◌, ◌==◌, if◌then◌else◌}
use cppgres.World.{Cpp, pure, ◌>>=◌}
use cppgres.Guard.{ErrorApi, ffi_guard}
use cppgres.Syscache.{CacheApi, with_syscache}

-- TypenameGetTypid, LookupExplicitNamespace, the datum that stands for a text as a key of a cache, and
-- the column oid of a tuple of pg_type.
pub record NamingApi (P : Type 0) : Type 0 where
  pub typename_get_typid : List ℕ → Cpp P ℕ
  pub lookup_explicit_namespace : List ℕ → Cpp P ℕ
  pub key_of : List ℕ → ℕ
  pub type_oid : ℕ → P → ℕ

-- TYPENAMENSP
abbrev pub typenamensp : ℕ
typenamensp = 81

module _ {P : Type 0} (errors : ErrorApi P) (cache : CacheApi P) (api : NamingApi P) where
  -- named_type(name), whose call has no guard
  unfoldable pub by_unqualified_name : List ℕ → Cpp P ℕ
  by_unqualified_name name = api.typename_get_typid name

  -- named_type(schema, name)
  unfoldable pub by_qualified_name : List ℕ → List ℕ → Cpp P ℕ
  by_qualified_name schema name = do
    nsoid ← ffi_guard errors (api.lookup_explicit_namespace schema)
    if not (nsoid == 0)
        then with_syscache errors cache typenamensp (api.key_of name ∷ nsoid ∷ [])
            (λ t w. pure (api.type_oid t w.pg) w)
        else pure 0
