-- ===== src/Services.antt =====
-- src/app_cfg.h: the sensor types and the services, as the program announces them.
mod Tests
use b80_key.Prelude.{
  ℕ, ◌+◌, ◌*◌, ◌/◌, ◌%◌, ◌^◌, ◌≡◌, refl, List, [], ◌∷◌, Bool, true, false, ◌==◌, bit_or,
}

-- ID_SENSOR_TYPES_e
pub data SensorType : Type 0 where
  sensor_none shtc3 sht4x sht30 cht8305 aht2x cht8215 ina226 my18b20 my18b20x2 : SensorType
  hx71x pwmrh ntc ina3221 scd41 bme280 bmp280 pcf85163 temp_mcu type_max : SensorType

unfoldable pub sensor_id : SensorType → ℕ
sensor_id sensor_none = 0
sensor_id shtc3 = 1
sensor_id sht4x = 2
sensor_id sht30 = 3
sensor_id cht8305 = 4
sensor_id aht2x = 5
sensor_id cht8215 = 6
sensor_id ina226 = 7
sensor_id my18b20 = 8
sensor_id my18b20x2 = 9
sensor_id hx71x = 10
sensor_id pwmrh = 11
sensor_id ntc = 12
sensor_id ina3221 = 13
sensor_id scd41 = 14
sensor_id bme280 = 15
sensor_id bmp280 = 16
sensor_id pcf85163 = 17
sensor_id temp_mcu = 18
sensor_id type_max = 19

-- ID_SENSORS
abbrev pub id_sensors : ℕ
unfolding sensor_id
id_sensors = bit_or (sensor_id temp_mcu) (sensor_id sensor_none * 2 ^ 8)

-- The SERVICE_ bits
pub data Service : Type 0 where
  service_ota service_ota_ext service_pincode service_bindkey service_history : Service
  service_screen service_le_lr service_ths service_rds service_key service_outs : Service
  service_ins service_time_adjust service_hard_clock service_th_trg service_led : Service
  service_mi_keys service_pressure service_18b20 service_ius service_plm : Service
  service_button service_findmy service_scantim service_zigbee service_pir : Service
  service_extended : Service

unfoldable pub service : Service → ℕ
service service_ota = 0x00000001
service service_ota_ext = 0x00000002
service service_pincode = 0x00000004
service service_bindkey = 0x00000008
service service_history = 0x00000010
service service_screen = 0x00000020
service service_le_lr = 0x00000040
service service_ths = 0x00000080
service service_rds = 0x00000100
service service_key = 0x00000200
service service_outs = 0x00000400
service service_ins = 0x00000800
service service_time_adjust = 0x00001000
service service_hard_clock = 0x00002000
service service_th_trg = 0x00004000
service service_led = 0x00008000
service service_mi_keys = 0x00010000
service service_pressure = 0x00020000
service service_18b20 = 0x00040000
service service_ius = 0x00080000
service service_plm = 0x00100000
service service_button = 0x00200000
service service_findmy = 0x00400000
service service_scantim = 0x00800000
service service_zigbee = 0x01000000
service service_pir = 0x02000000
service service_extended = 0x80000000

-- DEV_SERVICES
abbrev pub dev_services : ℕ
unfolding service
dev_services =
    bit_or
      (bit_or
        (bit_or (bit_or (service service_ota) (service service_pincode)) (service service_led))
        (service service_key))
      (service service_bindkey)
