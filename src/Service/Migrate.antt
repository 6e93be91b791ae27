-- ===== src/Service/Migrate.antt =====
-- backend/src/db/migrate.js: what the script prints once the schema is there.
use io_t_billing_service.Base.{Option, none, some, [], ◌++◌, Text, text, last?, or_else}
use io_t_billing_service.Api.{split_at}
use io_t_billing_service.Service.Config.{or_default, or_null}

-- `databaseUrl.split('@').pop()`
abbrev pub shown_target : Text → Text
shown_target url = or_else (last? (split_at b'@' [] url)) []

-- The message, by the script's argument and DATABASE_URL.
unfoldable pub migrations_applied : Option Text → Option Text → Text
migrations_applied argument database_url = elim (or_null database_url) [
  | some url ↦ text "Migrations applied (postgres " ++ (shown_target url ++ text ")")
  | none ↦
      text "Migrations applied (sqlite "
      ++ (or_default argument (text "./data/billing.db") ++ text ")")
]
