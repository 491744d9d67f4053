-- ===== src/Http/Commands.antt =====
-- The circuit breakers' configuration: net/soehttp/circuit_breaker.go and the global configuration of
-- net/soehttp/soehttp.go. hystrix is outside: its state is the list of the calls it has had.
use soelib.Common.{List, [], ◌∷◌, Option, none, some, Bool, true, false, if◌then◌else◌}
use soelib.Common.Text.{String, text_eq}
use soelib.Http.Config.{HystrixConfig, AlarmConfig}

-- `hystrix.ConfigureCommand` and `hystrix.Flush`
pub data Command : Type 0 where
  configured : String → HystrixConfig → Command
  flushed : Command

-- `alarm`, `enableHystrix`, `configuredCmds`, and the calls of hystrix, newest first.
pub record Globals : Type 0 where
  pub alarm : AlarmConfig
  pub enable_hystrix : Bool
  pub configured_cmds : List String
  pub commands : List Command

pub record SoeHttpConfig : Type 0 where
  pub alarm : AlarmConfig
  pub hystrix : HystrixConfig
  pub enable_hystrix : Bool

abbrev pub has : String → List String → Bool
has k [] = false
has k (x ∷ xs) = let rest = has k xs in if text_eq.beq k x then true else rest

unfoldable pub configure_hystrix_command : String → HystrixConfig → Globals → Globals
configure_hystrix_command name config g = if has name g.configured_cmds then g else record g {
  configured_cmds = name ∷ g.configured_cmds;
  commands = configured name config ∷ g.commands;
}

unfoldable pub reset_hystrix_commands : Globals → Globals
reset_hystrix_commands g = record g { configured_cmds = []; commands = flushed ∷ g.commands }

unfoldable pub init_config : SoeHttpConfig → Globals → Globals
init_config config g = record g {
  alarm = config.alarm;
  enable_hystrix = config.enable_hystrix;
  commands =
      configured "RemoteDELETE" config.hystrix
      ∷ configured "RemoteGET" config.hystrix
      ∷ configured "RemotePost" config.hystrix
      ∷ g.commands;
}

abbrev pub get_alarm_config : Globals → AlarmConfig
get_alarm_config g = g.alarm

abbrev pub is_hystrix_enabled : Globals → Bool
is_hystrix_enabled g = g.enable_hystrix

unfoldable pub reset_config_for_test : Globals → Globals
unfolding reset_hystrix_commands
reset_config_for_test g =
    let alarm : AlarmConfig = record { send_error_to_wx = false; chat_id = ""; api_path = "" } in
    reset_hystrix_commands (record g { alarm = alarm; enable_hystrix = false })

-- The configuration of an instance goes before the global one.
unfoldable pub should_use_hystrix : Option Bool → Globals → Bool
should_use_hystrix none g = g.enable_hystrix
should_use_hystrix (some b) g = b
