-- ===== src/Site.antt =====
-- Rows of the table `sites` (server/src/db/migrations/015_create_sites.ts), as the settings,
-- notification and probe services read them.
use oblimap.Base.{ℕ, Option, List, String, ◌==◌, ◌&&◌, first}

pub record Site : Type 0 where
  pub id : ℕ
  pub name : String
  pub group_id : Option ℕ
  pub tenant_id : ℕ

-- `db('sites').where({ id, tenant_id }).first()`
unfoldable pub find_site : ℕ → ℕ → List Site → Option Site
find_site tenant_id id sites = first (λ s. s.id == id && s.tenant_id == tenant_id) sites
