-- ===== src/Att.antt =====
-- The handles and identifiers of src/app_att.h and src/app_att.c, and the table of attributes that
-- src/app_att.c gives to the stack.
pub mod Table
pub mod Declared
pub mod Serial
mod Tests
use b80_key.Prelude.{ℕ, ◌+◌, List, [], ◌∷◌, Bool, true, false, bit_or}

-- ATT_HANDLE
pub data AttHandle : Type 0 where
  att_h_start generic_access_ps_h : AttHandle
  generic_access_device_name_cd_h generic_access_device_name_dp_h : AttHandle
  generic_access_appearance_cd_h generic_access_appearance_dp_h : AttHandle
  conn_param_cd_h conn_param_dp_h : AttHandle
  generic_attribute_ps_h generic_attribute_service_changed_cd_h : AttHandle
  generic_attribute_service_changed_dp_h generic_attribute_service_changed_ccb_h : AttHandle
  device_information_ps_h device_information_mod_name_cd_h : AttHandle
  device_information_mod_name_dp_h device_information_serial_n_cd_h : AttHandle
  device_information_serial_n_dp_h device_information_firm_rev_cd_h : AttHandle
  device_information_firm_rev_dp_h device_information_hard_rev_cd_h : AttHandle
  device_information_hard_rev_dp_h device_information_soft_rev_cd_h : AttHandle
  device_information_soft_rev_dp_h device_information_man_name_cd_h : AttHandle
  device_information_man_name_dp_h batt_ps_h : AttHandle
  batt_level_input_cd_h batt_level_input_dp_h : AttHandle
  batt_level_input_ccb_h env_ps_h : AttHandle
  temp_level_input_cd_h temp_level_input_dp_h : AttHandle
  temp_level_input_ccb_h rx_tx_ps_h : AttHandle
  rx_tx_cmd_out_cd_h rx_tx_cmd_out_dp_h : AttHandle
  rx_tx_cmd_out_desc_h ota_ps_h : AttHandle
  ota_cmd_out_cd_h ota_cmd_out_dp_h : AttHandle
  ota_cmd_out_desc_h att_end_h : AttHandle

unfoldable pub handle : AttHandle → ℕ
handle att_h_start = 0
handle generic_access_ps_h = 1
handle generic_access_device_name_cd_h = 2
handle generic_access_device_name_dp_h = 3
handle generic_access_appearance_cd_h = 4
handle generic_access_appearance_dp_h = 5
handle conn_param_cd_h = 6
handle conn_param_dp_h = 7
handle generic_attribute_ps_h = 8
handle generic_attribute_service_changed_cd_h = 9
handle generic_attribute_service_changed_dp_h = 10
handle generic_attribute_service_changed_ccb_h = 11
handle device_information_ps_h = 12
handle device_information_mod_name_cd_h = 13
handle device_information_mod_name_dp_h = 14
handle device_information_serial_n_cd_h = 15
handle device_information_serial_n_dp_h = 16
handle device_information_firm_rev_cd_h = 17
handle device_information_firm_rev_dp_h = 18
handle device_information_hard_rev_cd_h = 19
handle device_information_hard_rev_dp_h = 20
handle device_information_soft_rev_cd_h = 21
handle device_information_soft_rev_dp_h = 22
handle device_information_man_name_cd_h = 23
handle device_information_man_name_dp_h = 24
handle batt_ps_h = 25
handle batt_level_input_cd_h = 26
handle batt_level_input_dp_h = 27
handle batt_level_input_ccb_h = 28
handle env_ps_h = 29
handle temp_level_input_cd_h = 30
handle temp_level_input_dp_h = 31
handle temp_level_input_ccb_h = 32
handle rx_tx_ps_h = 33
handle rx_tx_cmd_out_cd_h = 34
handle rx_tx_cmd_out_dp_h = 35
handle rx_tx_cmd_out_desc_h = 36
handle ota_ps_h = 37
handle ota_cmd_out_cd_h = 38
handle ota_cmd_out_dp_h = 39
handle ota_cmd_out_desc_h = 40
handle att_end_h = 41

-- A 16-bit UUID, one of the two of 128 bits, or none
pub data Uuid : Type 0 where
  uuid16 : ℕ → Uuid
  telink_ota_uuid_service telink_spp_data_ota no_uuid : Uuid

abbrev pub primary_service : Uuid
primary_service = uuid16 0x2800

abbrev pub characteristic : Uuid
characteristic = uuid16 0x2803

abbrev pub client_char_cfg : Uuid
client_char_cfg = uuid16 0x2902

abbrev pub user_desc : Uuid
user_desc = uuid16 0x2901

-- CHAR_PROP_
abbrev pub prop_read : ℕ
prop_read = 0x02

abbrev pub prop_write_without_rsp : ℕ
prop_write_without_rsp = 0x04

abbrev pub prop_notify : ℕ
prop_notify = 0x10

abbrev pub prop_indicate : ℕ
prop_indicate = 0x20

-- ATT_PERMISSIONS_
pub data Permission : Type 0 where
  no_permission permission_read permission_rdwr permission_author_rdwr : Permission

-- The variables that attributes point to
pub data Variable : Type 0 where
  scan_rsp_name appearance peri_conn_parameters service_change_val service_change_ccc : Variable
  model_str serial_str firm_str hard_str soft_str man_str : Variable
  battery_level battery_value_in_ccc temp temp_value_in_ccc dev_id rx_tx_value_in_ccc : Variable
  ota_data ota_name : Variable

-- Their sizes; that of the name is the 5 of the table.
unfoldable pub size_of : Variable → ℕ
size_of scan_rsp_name = 5
size_of appearance = 2
size_of peri_conn_parameters = 8
size_of service_change_val = 4
size_of service_change_ccc = 2
size_of model_str = 11
size_of serial_str = 20
size_of firm_str = 16
size_of hard_str = 7
size_of soft_str = 8
size_of man_str = 12
size_of battery_level = 1
size_of battery_value_in_ccc = 2
size_of temp = 2
size_of temp_value_in_ccc = 2
size_of dev_id = 12
size_of rx_tx_value_in_ccc = 2
size_of ota_data = 1
size_of ota_name = 3

-- What an attribute holds: the UUID of a service, a declaration (the my_..CharVal), or a variable
pub data Value : Type 0 where
  service : Uuid → Value
  char_val : ℕ → AttHandle → Uuid → Value
  variable : Variable → Value
  no_value : Value

-- The write callbacks
pub data Callback : Type 0 where
  no_callback call_on_write_data call_ota_write : Callback

-- attribute_t
pub record Attribute : Type 0 where
  pub att_num : ℕ
  pub perm : Permission
  pub uuid_len : ℕ
  pub attr_len : ℕ
  pub uuid : Uuid
  pub value : Value
  pub write : Callback
