-- ===== src/Services/Tests.antt =====
-- The constants that the program announces, computed.
use b80_key.Prelude.{◌≡◌, refl}
use b80_key.Services.{id_sensors, dev_services, sensor_id, service}

id_sensors_example : id_sensors ≡ 18
unfolding sensor_id
id_sensors_example = refl

dev_services_example : dev_services ≡ 0x820D
unfolding service
dev_services_example = refl
