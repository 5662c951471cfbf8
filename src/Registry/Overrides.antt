-- ===== src/Registry/Overrides.antt =====
-- The settings of a bot command reach the registry (`RefreshOverride` of registry.go).
use telegram_digest_bot.Base.{◌≡◌, String, some, arith, str_eq, eq_iff, if◌then◌else◌}
use telegram_digest_bot.Base.Dict
use telegram_digest_bot.Base.Dict.{lookup-insert, lookup-delete}
use telegram_digest_bot.Registry.{Registry, get_task_model_override, set_task_model_override}
use telegram_digest_bot.Registry.Config.{SettingsReader, db_setting_to_task_type, refresh_override}

set_or_clear : String → String → Registry → Registry
set_or_clear task model r =
    if str_eq model ""
    then record r { model_overrides = Dict.delete task r.model_overrides }
    else set_task_model_override task model r

set_or_clear_lem :
    (task other model : String) (r : Registry)
    → get_task_model_override other (set_or_clear task model r)
      ≡ (if str_eq task other then model else get_task_model_override other r)
unfolding get_task_model_override set_or_clear set_task_model_override
set_or_clear_lem task other model r = ground (
  arith,
  eq_iff model "",
  eq_iff task other,
  lookup-insert task other model r.model_overrides,
  lookup-delete task other r.model_overrides,
)

-- Refreshing a known setting makes the stored model the override of its task, the empty text when the
-- setting was cleared, and leaves the override of every other task.
pub get_task_model_override-refresh_override :
    (reader : SettingsReader) (key task other model : String) (r : Registry)
    → Dict.lookup key db_setting_to_task_type ≡ some task
    → reader key ≡ some model
    → get_task_model_override other (refresh_override reader key r)
      ≡ (if str_eq task other then model else get_task_model_override other r)
unfolding refresh_override set_or_clear
get_task_model_override-refresh_override reader key task other model r known stored =
    rw (refresh_override, known, stored) (set_or_clear_lem task other model r)
