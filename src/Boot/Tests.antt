-- ===== src/Boot/Tests.antt =====
-- A start with a good battery.
use b80_key.Prelude.{◌≡◌, ◌⊎◌, refl, arith, [], true, false, pos, replicate}
use b80_key.Data.Limits.{IsValid}
use b80_key.Battery.{check_battery_level}
use b80_key.Temp.Tests.{measured}
use b80_key.App.Tests.{idle}
use b80_key.Data.Tests.{settings}
use b80_key.Eep.Tests.{nor, memory}
use b80_key.Boot.{Start, System, user_init_normal}
use b80_key.Boot.Cold.{pin_codes, user_init_normal_lem}

abbrev start : Start
start = record {
  vbat = 2900;
  adc = 21500;
  key = true;
  random = replicate 16 3;
  init_mac = λ m. m;
  overflow = 0;
}

abbrev system : System
system = record {
  settings = settings;
  mem = memory;
  battery = record { summ = 0; cnt = 0 };
  voltage = record { battery_mv = 0; battery_level = 0; flg_update = 0 };
  temperature = measured;
  temp = pos 0;
  app = idle;
}

user_init_normal_example :
    let low = (check_battery_level true 2900 (system.battery) (system.voltage)).0 in
    let b = user_init_normal nor 7 start system in
    ((low ≡ true) × (b.off ≡ true) × (b.system.mem ≡ memory) × (b.system.settings ≡ settings))
    ⊎ ((low ≡ false) × (b.off ≡ false) × IsValid b.system.settings × (pin_codes b.calls ≡ []))
user_init_normal_example = user_init_normal_lem nor 7 start system (omega arith) refl refl
