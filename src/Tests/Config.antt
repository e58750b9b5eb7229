-- ===== src/Tests/Config.antt =====
-- The configuration of an environment that sets two variables.
use cloud_agent_sandbox.Base.{
  ◌≡◌, refl, Option, none, some, Text, bytes, list_beq, text_eq, ◌==◌, if◌then◌else◌,
}
use cloud_agent_sandbox.Base.Int.{ℤ, pos}
use cloud_agent_sandbox.Config.Model.{Config, default, validate}
use cloud_agent_sandbox.Config.Parse.{atoi, parse_digits, parse_bool}
use cloud_agent_sandbox.Config.Laws.{IsConsistent}
use cloud_agent_sandbox.Config.Load.{
  load, env_text, env_allow_empty, env_int, env_duration, env_bool, env_bool_ptr, Environment,
}
use cloud_agent_sandbox.Config.Load.Laws.{load-IsConsistent}
use cloud_agent_sandbox.Session.Model.{ok}

abbrev pub variables : Environment
variables k =
    if k == bytes "SANDBOX_API_KEY"
    then some (bytes "key")
    else if k == bytes "SANDBOX_MAX_RUNNING"
    then some (bytes "7")
    else none

abbrev pub expected : Config
expected = record default {
  pool = record (default.pool) { max_running = pos 7 };
  security = record (default.security) { api_key = bytes "key" };
}

abbrev pub no_durations : Text → Option ℤ
no_durations t = none

loaded : load no_durations variables ≡ ok expected
unfolding load default validate env_text env_allow_empty env_int env_duration env_bool env_bool_ptr
    atoi parse_digits parse_bool list_beq
loaded = refl

load-IsConsistent_example : IsConsistent expected
load-IsConsistent_example = load-IsConsistent no_durations variables expected loaded
