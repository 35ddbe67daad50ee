-- ===== src/Cmd/Life.antt =====
-- From a new flash on: the first start, a command of src/app_cmd.c, and the next start.
use b80_key.Prelude.{ℕ, ◌<◌, ◌≡◌, ◌≢◌, sym, arith, List, [], ◌∷◌, leb, true, length}
use mathlib.Core.Path.{subst}
use b80_key.Flash.{Mem, Flash}
use b80_key.Eep.{eep_base}
use b80_key.Eep.Log.{IsByte, All, latest, log_end}
use b80_key.Eep.Pack.{check_flag_eep_id, set_flag_eep_id}
use b80_key.Eep.Compact.{pack_log, pack_entry, emit_latest}
use b80_key.Eep.Holds.{Holds}
use b80_key.Eep.Repack.{IsPackable}
use b80_key.Eep.Switch.{packed_end}
use b80_key.Data.{Settings, load_config, dev_cfg_def, temperature_cfg_def}
use b80_key.Data.First.{IsNew, first_log, first_log-IsSettled, load_config-first}
use b80_key.Cmd.{Device, Chip, app_on_write_data}
use b80_key.Cmd.Restart.{Restarts, load_config-dev_config}

first_log-packed : (key : List ℕ) → length key ≡ 16 → packed_end (first_log key) ≡ 32
unfolding log_end pack_log pack_entry check_flag_eep_id emit_latest latest set_flag_eep_id
first_log-packed key long =
    let fits : leb (length key) 32 ≡ true = ground (arith, long) in ground (arith, fits, long)

first_log-IsPackable : (key : List ℕ) → length key ≡ 16 → All IsPackable (first_log key)
first_log-IsPackable key long = omega (arith, long)

-- On a new flash, with 16 random bytes and the pincode 0 in RAM at each start: a configuration that a
-- client sets by a command after the first start, with the notifications on, is the current one
-- after the next start, with the calibration and the bindkey of the first start, and this start
-- writes nothing.
pub load_config-app_on_write_data :
    (d : Flash) (v : Chip) (s : Device) (random random' : List ℕ) (w w' : Settings) (m : Mem)
    (b0 b1 b2 b3 b4 b5 : ℕ) (rest : List ℕ)
    → IsNew m
    → w.pincode ≡ 0
    → w'.pincode ≡ 0
    → length random ≡ 16
    → All IsByte random
    → s.mem ≡ (load_config d v.rf_index random w m).1
    → s.rx_tx_value_in_ccc ≢ 0
    → v.rf_index < 256
    → All IsByte (b0 ∷ b1 ∷ b2 ∷ b3 ∷ b4 ∷ b5 ∷ [])
    → let s' =
        (app_on_write_data d v s
          (record { l2cap_len = 10; dat = 0x55 ∷ b0 ∷ b1 ∷ b2 ∷ b3 ∷ b4 ∷ b5 ∷ rest })).0 in
      Restarts d v.rf_index random' w' s'.mem s'.settings.dev_cfg temperature_cfg_def random
load_config-app_on_write_data d v s random random' w w' m b0 b1 b2 b3 b4 b5 rest new off off' long
      bytes started on small request =
    let first = load_config-first d v.rf_index random w m new off long bytes in
    let h : Holds s.mem eep_base (first_log random) =
      subst (λ m. Holds m eep_base (first_log random)) (sym started) first.1 in
    load_config-dev_config d v s eep_base (first_log random) h (first_log-IsPackable random long) on
      (dev_cfg_def v.rf_index) temperature_cfg_def random
      (first_log-IsSettled d v.rf_index random long) random' w' off' b0 b1 b2 b3 b4 b5 rest request
      small (omega (arith, first_log-packed random long))
