-- ===== src/Data/RestartTests.antt =====
-- A store that an earlier run has left, for src/app_data.c.
use b80_key.Prelude.{
  ℕ, zero, suc, false, ◌-◌, ◌≤◌, ◌≡◌, refl, inl, arith, List, [], ◌∷◌, ltb, if◌then◌else◌, get_or,
  replicate, length,
}
use b80_key.Flash.{Mem}
use b80_key.Eep.{Obj}
use b80_key.Eep.Log.{log_end, latest, All}
use b80_key.Eep.Pack.{check_flag_eep_id}
use b80_key.Eep.Compact.{pack_log, pack_entry, emit_latest}
use b80_key.Eep.Holds.{Holds}
use b80_key.Eep.Repack.{IsPackable}
use b80_key.Eep.Switch.{packed_end}
use b80_key.Eep.Tests.{nor}
use b80_key.Data.{test_dev_cfg, load_config, dev_cfg_def, temperature_cfg_def}
use b80_key.Data.Tests.{settings}
use b80_key.Data.Restart.{load_config_lem}

-- The version, the configuration and the calibration
abbrev log : List Obj
log =
    record { id = 0; size = 4; bytes = 1 ∷ 0 ∷ 0 ∷ 1 ∷ [] }
    ∷ record { id = 1; size = 6; bytes = 0x40 ∷ 0x1F ∷ 2 ∷ 7 ∷ 0 ∷ 0 ∷ [] }
    ∷ record { id = 4; size = 4; bytes = 0x04 ∷ 0x29 ∷ 0x38 ∷ 0xE0 ∷ [] }
    ∷ []

abbrev bytes : List ℕ
bytes =
    255 ∷ 0 ∷ 0 ∷ 4 ∷ 1 ∷ 0 ∷ 0 ∷ 1 ∷ 1 ∷ 6 ∷ 0x40 ∷ 0x1F ∷ 2 ∷ 7 ∷ 0 ∷ 0 ∷ 4 ∷ 4 ∷ 0x04 ∷ 0x29
    ∷ 0x38 ∷ 0xE0 ∷ []

abbrev stored : Mem
stored x = if ltb x 0xC000 then 255 else get_or bytes (x - 0xC000) 255

pub behind : (bs : List ℕ) (i : ℕ) → length bs ≤ i → get_or bs i 255 ≡ 255
behind [] i p = refl
behind (b ∷ bs) zero p = ground (arith, p)
behind (b ∷ bs) (suc i) p = behind bs i (omega arith)

stored-erased : (x : ℕ) → 0xC016 ≤ x → stored x ≡ 255
stored-erased x p =
    let inside : ltb x 0xC000 ≡ false = ground (arith, p) in
    rw inside (behind bytes (x - 0xC000) (omega arith))

stored-Holds : Holds stored 0xC000 log
unfolding log_end
stored-Holds = record {
  sector = inl refl;
  mark_id = refl;
  mark_size = refl;
  other = λ e. omega (arith, e);
  has_log = record {
    entries = omega arith;
    stored = (refl, refl, refl, (refl, refl, refl, (refl, refl, refl, tt)));
    room = omega arith;
    erased = λ x p q. stored-erased x (omega arith);
  };
}

log-IsPackable : All IsPackable log
log-IsPackable = omega arith

log-packed : packed_end log ≡ 22
unfolding log_end pack_log pack_entry check_flag_eep_id emit_latest latest
    b80_key.Eep.Pack.set_flag_eep_id
log-packed = refl

load_config_example :
    let w = (load_config nor 7 (replicate 16 3) settings stored).0 in
    (w.dev_cfg ≡ (test_dev_cfg 7 (record settings { dev_cfg = dev_cfg_def 7 })).dev_cfg)
    × (w.temperature_cfg ≡ temperature_cfg_def)
unfolding latest
load_config_example =
    load_config_lem nor stored 0xC000 log stored-Holds 7 (replicate 16 3) settings (dev_cfg_def 7)
      temperature_cfg_def log-IsPackable (omega (arith, log-packed)) refl refl refl (omega arith)
      (omega arith) (omega arith)
