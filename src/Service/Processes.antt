-- ===== src/Service/Processes.antt =====
-- ecosystem.config.cjs: the two processes that PM2 runs, and client.py's command line.
use io_t_billing_service.Base.{
  ℕ, Bool, true, false, Option, none, some, List, [], ◌∷◌, Text, text, text_eq, if◌then◌else◌,
}
use io_t_billing_service.Api.{split_at}

-- An app; what it leaves out takes PM2's own default.
pub record App : Type 0 where
  pub name : Text
  pub cwd : Text
  pub script : Text
  pub interpreter : Text
  pub args : Option Text
  pub env : List (Text × Text)
  pub instances : Option ℕ
  pub autorestart : Bool
  pub autostart : Option Bool
  pub max_memory_restart : Option Text
  pub time : Bool
  pub out_file : Text
  pub error_file : Text

abbrev pub backend : App
backend = record {
  name = text "iot-billing-backend";
  cwd = text "./backend";
  script = text "src/index.js";
  interpreter = text "node";
  args = none;
  env = (text "NODE_ENV", text "production") ∷ [];
  instances = some 1;
  autorestart = true;
  autostart = none;
  max_memory_restart = some (text "300M");
  time = true;
  out_file = text "../logs/backend.out.log";
  error_file = text "../logs/backend.err.log";
}

abbrev pub device_emulator : App
device_emulator = record {
  name = text "iot-device-emulator";
  cwd = text "./emulator";
  script = text "client.py";
  interpreter = text "python3";
  args =
      some
        (text "--type meter --device-key demo_meter --endpoint http://127.0.0.1:8080/api/readings");
  env = [];
  instances = none;
  autorestart = true;
  autostart = some false;
  max_memory_restart = none;
  time = true;
  out_file = text "../logs/emulator.out.log";
  error_file = text "../logs/emulator.err.log";
}

unfoldable pub apps : List App
apps = backend ∷ device_emulator ∷ []

-- The value that follows an option among the arguments; the last one counts.
unfoldable pub option_value : Text → List Text → Option Text
option_value name [] = none
option_value name (a ∷ []) = none
option_value name (a ∷ b ∷ rest) =
    let later = option_value name (b ∷ rest) in
    elim later [ some v ↦ some v | none ↦ if text_eq a name then some b else none ]

unfoldable pub arguments : App → List Text
arguments app = elim app.args [ none ↦ [] | some t ↦ split_at b' ' [] t ]
