-- ===== src/Service/Config.antt =====
-- backend/src/config.js: the settings, from the environment.
use io_t_billing_service.Base.{ℕ, Bool, true, false, Option, none, some, [], ◌∷◌, Text, text}

-- `x || d`, where the empty string is falsy.
unfoldable pub or_default : Option Text → Text → Text
or_default none d = d
or_default (some []) d = d
or_default (some (c ∷ s)) d = c ∷ s

-- `x || null`
abbrev pub or_null : Option Text → Option Text
or_null none = none
or_null (some []) = none
or_null (some (c ∷ s)) = some (c ∷ s)

-- `N` are the Numbers of JavaScript.
pub record Settings (N : Type 0) : Type 0 where
  pub soroban_rpc_url : Text
  pub network_passphrase : Text
  pub contract_id : Text
  pub relayer_secret : Text
  pub poll_interval_ms : N
  pub db_path : Text
  pub database_url : Option Text
  pub http_port : N
  pub ws_port : N
  pub frontend_dist : Text
  pub cors_origin : Text
  pub rate_limit_window_ms : N
  pub rate_limit_max : N

-- `pollEnabled`
abbrev pub poll_enabled : {N : Type 0} → Settings N → Bool
poll_enabled settings = elim settings.contract_id [ [] ↦ false | c ∷ s ↦ true ]

-- Number() of a text and of a literal are parameters; `env` is process.env.
module _ {N : Type 0} (number : Text → N) (literal : ℕ → N) (env : Text → Option Text) where
  -- `Number(x || d)`
  abbrev number_or : Option Text → ℕ → N
  number_or none d = literal d
  number_or (some []) d = literal d
  number_or (some (c ∷ s)) d = number (c ∷ s)

  unfoldable pub config : Settings N
  config = record {
    soroban_rpc_url =
        or_default (env (text "SOROBAN_RPC_URL")) (text "https://soroban-testnet.stellar.org");
    network_passphrase =
        or_default (env (text "NETWORK_PASSPHRASE")) (text "Test SDF Network ; September 2015");
    contract_id = or_default (env (text "CONTRACT_ID")) [];
    relayer_secret = or_default (env (text "RELAYER_SECRET")) [];
    poll_interval_ms = number_or (env (text "POLL_INTERVAL_MS")) 5000;
    db_path = or_default (env (text "DB_PATH")) (text "./data/billing.db");
    database_url = or_null (env (text "DATABASE_URL"));
    http_port = number_or (env (text "HTTP_PORT")) 8080;
    ws_port = number_or (env (text "WS_PORT")) 8080;
    frontend_dist = or_default (env (text "FRONTEND_DIST")) (text "../frontend/dist");
    cors_origin = or_default (env (text "CORS_ORIGIN")) [];
    rate_limit_window_ms = number_or (env (text "RATE_LIMIT_WINDOW_MS")) 60000;
    rate_limit_max = number_or (env (text "RATE_LIMIT_MAX")) 60;
  }
