-- ===== src/Att/Table.antt =====
-- my_Attributes of src/app_att.c.
use b80_key.Prelude.{ℕ, ◌-◌, List, [], ◌∷◌, ◌++◌, bit_or}
use b80_key.Att.{
  AttHandle, handle, att_end_h, Uuid, uuid16, telink_ota_uuid_service, telink_spp_data_ota,
  primary_service, characteristic, client_char_cfg, user_desc, prop_read, prop_write_without_rsp,
  prop_notify, prop_indicate, no_uuid, no_value, no_permission, Permission, permission_read,
  permission_rdwr, permission_author_rdwr, Variable, size_of, service, char_val, variable, Callback,
  no_callback, call_on_write_data, call_ota_write, Attribute, scan_rsp_name, appearance,
  peri_conn_parameters, service_change_val, service_change_ccc, model_str, serial_str, firm_str,
  hard_str, soft_str, man_str, battery_level, battery_value_in_ccc, temp, temp_value_in_ccc, dev_id,
  rx_tx_value_in_ccc, ota_data, ota_name, generic_access_device_name_dp_h,
  generic_access_appearance_dp_h, conn_param_dp_h, generic_attribute_service_changed_dp_h,
  device_information_hard_rev_dp_h, device_information_firm_rev_dp_h,
  device_information_soft_rev_dp_h, device_information_man_name_dp_h, batt_level_input_dp_h,
  temp_level_input_dp_h, rx_tx_cmd_out_dp_h, ota_cmd_out_dp_h,
}

-- A line of the table that starts a service of `n` attributes
abbrev pub service_row : ℕ → ℕ → Uuid → Attribute
service_row n attr_len u = record {
  att_num = n;
  perm = permission_read;
  uuid_len = 2;
  attr_len = attr_len;
  uuid = primary_service;
  value = service u;
  write = no_callback;
}

-- A declaration: the properties, the handle and the UUID of the value
abbrev pub char_row : ℕ → ℕ → AttHandle → Uuid → Attribute
char_row attr_len props h u = record {
  att_num = 0;
  perm = permission_read;
  uuid_len = 2;
  attr_len = attr_len;
  uuid = characteristic;
  value = char_val props h u;
  write = no_callback;
}

abbrev pub variable_row : Permission → ℕ → Uuid → Variable → Callback → Attribute
unfolding size_of
variable_row perm uuid_len u v write = record {
  att_num = 0;
  perm = perm;
  uuid_len = uuid_len;
  attr_len = size_of v;
  uuid = u;
  value = variable v;
  write = write;
}

-- The first line has the number of attributes.
abbrev pub first_row : Attribute
unfolding handle
first_row = record {
  att_num = handle att_end_h - 1;
  perm = no_permission;
  uuid_len = 0;
  attr_len = 0;
  uuid = no_uuid;
  value = no_value;
  write = no_callback;
}

-- 0001 - 0007 gap
abbrev pub gap_attributes : List Attribute
gap_attributes =
    service_row 7 2 (uuid16 0x1800)
    ∷ char_row 5 (prop_read) generic_access_device_name_dp_h (uuid16 0x2A00)
    ∷ variable_row permission_read 2 (uuid16 0x2A00) scan_rsp_name no_callback
    ∷ char_row 5 (prop_read) generic_access_appearance_dp_h (uuid16 0x2A01)
    ∷ variable_row permission_read 2 (uuid16 0x2A01) appearance no_callback
    ∷ char_row 5 (prop_read) conn_param_dp_h (uuid16 0x2A04)
    ∷ variable_row permission_read 2 (uuid16 0x2A04) peri_conn_parameters no_callback
    ∷ []

-- 0008 - 000b gatt
abbrev pub gatt_attributes : List Attribute
gatt_attributes =
    service_row 4 2 (uuid16 0x1801)
    ∷ char_row 5 (prop_indicate) generic_attribute_service_changed_dp_h (uuid16 0x2A05)
    ∷ variable_row permission_read 2 (uuid16 0x2A05) service_change_val no_callback
    ∷ variable_row permission_rdwr 2 (client_char_cfg) service_change_ccc no_callback
    ∷ []

-- 000c - 0018 Device Information Service
abbrev pub info_attributes : List Attribute
info_attributes =
    service_row 13 2 (uuid16 0x180A)
    ∷ char_row 5 (prop_read) device_information_hard_rev_dp_h (uuid16 0x2A27)
    ∷ variable_row permission_read 2 (uuid16 0x2A24) model_str no_callback
    ∷ char_row 5 (prop_read) device_information_firm_rev_dp_h (uuid16 0x2A25)
    ∷ variable_row permission_read 2 (uuid16 0x2A25) serial_str no_callback
    ∷ char_row 5 (prop_read) device_information_firm_rev_dp_h (uuid16 0x2A26)
    ∷ variable_row permission_read 2 (uuid16 0x2A26) firm_str no_callback
    ∷ char_row 5 (prop_read) device_information_hard_rev_dp_h (uuid16 0x2A27)
    ∷ variable_row permission_read 2 (uuid16 0x2A27) hard_str no_callback
    ∷ char_row 5 (prop_read) device_information_soft_rev_dp_h (uuid16 0x2A28)
    ∷ variable_row permission_read 2 (uuid16 0x2A28) soft_str no_callback
    ∷ char_row 5 (prop_read) device_information_man_name_dp_h (uuid16 0x2A29)
    ∷ variable_row permission_read 2 (uuid16 0x2A29) man_str no_callback
    ∷ []

-- Battery Service
abbrev pub battery_attributes : List Attribute
battery_attributes =
    service_row 4 2 (uuid16 0x180F)
    ∷ char_row 5 (bit_or prop_read prop_notify) batt_level_input_dp_h (uuid16 0x2A19)
    ∷ variable_row permission_read 2 (uuid16 0x2A19) battery_level no_callback
    ∷ variable_row permission_rdwr 2 (client_char_cfg) battery_value_in_ccc no_callback
    ∷ []

-- Environmental sensing, temperature in 0.01C
abbrev pub temp_attributes : List Attribute
temp_attributes =
    service_row 4 2 (uuid16 0x181A)
    ∷ char_row 5 (bit_or prop_read prop_notify) temp_level_input_dp_h (uuid16 0x2A6E)
    ∷ variable_row permission_read 2 (uuid16 0x2A6E) temp no_callback
    ∷ variable_row permission_rdwr 2 (client_char_cfg) temp_value_in_ccc no_callback
    ∷ []

-- (Command) RxTx Communication
abbrev pub rx_tx_attributes : List Attribute
rx_tx_attributes =
    service_row 4 2 (uuid16 0xFCD2)
    ∷ char_row 5 (bit_or (bit_or prop_read prop_notify) prop_write_without_rsp) rx_tx_cmd_out_dp_h
        (uuid16 0xFFF4)
    ∷ variable_row permission_author_rdwr 2 (uuid16 0xFFF4) dev_id call_on_write_data
    ∷ variable_row permission_rdwr 2 (client_char_cfg) rx_tx_value_in_ccc no_callback
    ∷ []

-- OTA
abbrev pub ota_attributes : List Attribute
ota_attributes =
    service_row 4 16 (telink_ota_uuid_service)
    ∷ char_row 19 (bit_or prop_read prop_write_without_rsp) ota_cmd_out_dp_h (telink_spp_data_ota)
    ∷ variable_row permission_author_rdwr 16 (telink_spp_data_ota) ota_data call_ota_write
    ∷ variable_row permission_read 2 (user_desc) ota_name no_callback
    ∷ []

abbrev pub my_attributes : List Attribute
my_attributes =
    first_row
    ∷ (gap_attributes ++ gatt_attributes ++ info_attributes ++ battery_attributes ++ temp_attributes
        ++ rx_tx_attributes ++ ota_attributes)
