-- ===== src/Cmd/Ids.antt =====
-- The commands of src/app_cmd.h, for the different devices.
use b80_key.Prelude.{ℕ}

-- CMD_ID_KEYS
pub data CmdId : Type 0 where
  cmd_dev_id cmd_dname cmd_gdevs cmd_i2c_scan cmd_i2c_utr cmd_sen_id : CmdId
  cmd_flash_id cmd_dev_mac cmd_mi_dname cmd_mi_tbind cmd_mi_cfg cmd_mi_kdel : CmdId
  cmd_mi_kall cmd_mi_rest cmd_mi_clr cmd_bkey cmd_comfort cmd_scan_cfg : CmdId
  cmd_extdata cmd_utc_time cmd_tadjust cmd_cfs cmd_cfs_def cmd_cfb20 : CmdId
  cmd_cfb20_def cmd_rh cmd_rh_cal cmd_kz2 cmd_kz3 cmd_measure : CmdId
  cmd_logger cmd_clrlog cmd_rds cmd_trg cmd_trg_out cmd_hxc : CmdId
  cmd_cfg cmd_cfg_def cmd_lcd_dump cmd_lcd_flg cmd_dac_cfg cmd_pincode : CmdId
  cmd_mtu cmd_reboot cmd_set_ota cmd_otac cmd_wrfb cmd_rdfb : CmdId
  cmd_erfb cmd_chgb cmd_eep_rw cmd_lr_reset cmd_debug : CmdId

unfoldable pub cmd_value : CmdId → ℕ
cmd_value cmd_dev_id = 0x00
cmd_value cmd_dname = 0x01
cmd_value cmd_gdevs = 0x02
cmd_value cmd_i2c_scan = 0x03
cmd_value cmd_i2c_utr = 0x04
cmd_value cmd_sen_id = 0x05
cmd_value cmd_flash_id = 0x06
cmd_value cmd_dev_mac = 0x10
cmd_value cmd_mi_dname = 0x11
cmd_value cmd_mi_tbind = 0x12
cmd_value cmd_mi_cfg = 0x13
cmd_value cmd_mi_kdel = 0x14
cmd_value cmd_mi_kall = 0x15
cmd_value cmd_mi_rest = 0x16
cmd_value cmd_mi_clr = 0x17
cmd_value cmd_bkey = 0x18
cmd_value cmd_comfort = 0x20
cmd_value cmd_scan_cfg = 0x21
cmd_value cmd_extdata = 0x22
cmd_value cmd_utc_time = 0x23
cmd_value cmd_tadjust = 0x24
cmd_value cmd_cfs = 0x25
cmd_value cmd_cfs_def = 0x26
cmd_value cmd_cfb20 = 0x27
cmd_value cmd_cfb20_def = 0x28
cmd_value cmd_rh = 0x29
cmd_value cmd_rh_cal = 0x2A
cmd_value cmd_kz2 = 0x2b
cmd_value cmd_kz3 = 0x2c
cmd_value cmd_measure = 0x33
cmd_value cmd_logger = 0x35
cmd_value cmd_clrlog = 0x36
cmd_value cmd_rds = 0x40
cmd_value cmd_trg = 0x44
cmd_value cmd_trg_out = 0x45
cmd_value cmd_hxc = 0x49
cmd_value cmd_cfg = 0x55
cmd_value cmd_cfg_def = 0x56
cmd_value cmd_lcd_dump = 0x60
cmd_value cmd_lcd_flg = 0x61
cmd_value cmd_dac_cfg = 0x68
cmd_value cmd_pincode = 0x70
cmd_value cmd_mtu = 0x71
cmd_value cmd_reboot = 0x72
cmd_value cmd_set_ota = 0x73
cmd_value cmd_otac = 0xD1
cmd_value cmd_wrfb = 0xD3
cmd_value cmd_rdfb = 0xD4
cmd_value cmd_erfb = 0xD5
cmd_value cmd_chgb = 0xD7
cmd_value cmd_eep_rw = 0xDC
cmd_value cmd_lr_reset = 0xDD
cmd_value cmd_debug = 0xDE
