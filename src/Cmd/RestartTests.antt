-- ===== src/Cmd/RestartTests.antt =====
-- A command and the next start, on a store that has all the objects.
use b80_key.Prelude.{◌≡◌, refl, arith, [], ◌∷◌, replicate}
use b80_key.Eep.Tests.{nor}
use b80_key.Data.{load_config, test_dev_cfg, dev_cfg_def, temperature_cfg_def}
use b80_key.Data.Tests.{settings}
use b80_key.Data.SettledTests.{
  settled, settled_mem, settled-Holds, settled-IsPackable, settled-packed, settled-IsSettled, blank,
  blank-IsNew,
}
use b80_key.Cmd.{Device, app_on_write_data}
use b80_key.Cmd.Tests.{chip, device}
use b80_key.Cmd.Restart.{Restarts, load_config-bind_key}
use b80_key.Cmd.Life.{load_config-app_on_write_data}

abbrev running : Device
running = record device { mem = settled_mem }

load_config-bind_key_example :
    let s' =
      (app_on_write_data nor chip running
        (record { l2cap_len = 20; dat = 0x18 ∷ 9 ∷ replicate 15 8 })).0 in
    (s'.settings.bindkey ≡ 9 ∷ replicate 15 8)
    × Restarts nor 7
        (replicate 16 3)
        settings
        s'.mem
        (test_dev_cfg 7 (record settings { dev_cfg = dev_cfg_def 7 })).dev_cfg
        temperature_cfg_def
        (9 ∷ replicate 15 8)
load_config-bind_key_example =
    load_config-bind_key nor chip running 0xC000 settled settled-Holds settled-IsPackable
      (omega arith) (dev_cfg_def 7) temperature_cfg_def (replicate 16 5) settled-IsSettled
      (replicate 16 3) settings refl 9 (replicate 15 8) [] refl (omega arith)
      (omega (arith, settled-packed))

-- The first start of a new flash
abbrev started : Device
started = record device { mem = (load_config nor 7 (replicate 16 3) settings blank).1 }

load_config-app_on_write_data_example :
    let s' =
      (app_on_write_data nor chip started
        (record { l2cap_len = 10; dat = 0x55 ∷ 0x40 ∷ 0x1F ∷ 3 ∷ 10 ∷ 1 ∷ 0 ∷ [] })).0 in
    Restarts nor 7
      (replicate 16 4)
      settings
      s'.mem
      s'.settings.dev_cfg
      temperature_cfg_def
      (replicate 16 3)
load_config-app_on_write_data_example =
    load_config-app_on_write_data nor chip started (replicate 16 3) (replicate 16 4) settings
      settings blank 0x40 0x1F 3 10 1 0 [] blank-IsNew refl refl refl (omega arith) refl
      (omega arith) (omega arith) (omega arith)
