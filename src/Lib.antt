-- ===== src/Lib.antt =====
-- A verification library for the firmware B80_key (a BLE button and sensor on the Telink B80 chip).
--
-- src/app_data.c keeps the settings and loads and saves them through src/flash_eep.c, which
-- keeps small objects (configuration, device name, keys) in two flash sectors. One
-- sector is the current one; it holds a log of records (id, size, data), the last record of an id
-- being its value. A full sector is packed into the other one.
--
-- - Prelude: the shared names, lists, bit operations on bytes, Boolean tests and integers with the
--   wrap-around of signed words.
-- - Flash: the flash driver of the vendor (flash_read_page, flash_write_page, flash_erase_sector),
--   a record of operations with the documented behaviour of a NOR flash as laws.
-- - Eep (src/flash_eep.c, src/flash_eep.h): the records and the searches get_addr_bscfg,
--   get_addr_wrobj and get_addr_idobj; Eep/Pack: pack_eep_fmem; Eep/Config: flash_write_cfg,
--   flash_read_cfg, flash_erase_all_cfg and flash_supported_eep_ver. Eep/Log and Eep/Holds have the
--   abstract view: a sector holds a list of records. Eep/Compact has packing as a function on lists,
--   and Eep/PowerCut a write that is interrupted.
--   The other children are proofs.
--
-- - Data (src/app_data.c, the configuration of src/app_soc_temp.c): the settings; Data/Limits has
--   test_dev_cfg and the device name, Data/Stored what saving and loading do to the object store,
--   Data/Restart and Data/Settled load_config on a store from an earlier run, Data/First on a new
--   flash, Data/Name the name.
-- - Cmd (src/app_cmd.c, src/app_cmd.h): app_onWriteData, which a client calls by a write to a
--   characteristic; one function for each case of its switch, over the settings, the object
--   store and the sector of the address. Cmd/Ids has the commands, Cmd/Replies and Cmd/Answers what
--   every reply is, Cmd/Saved what the commands that set something leave in the store, Cmd/Restart and
--   Cmd/Life what the next start makes of it, Cmd/Mac the address. Services (src/app_cfg.h): the
--   sensors and services that the program announces.
-- - Battery (src/app_battery.c): the samples of get_adc, whose insertion sort is on an array given as a
--   function, and check_battery_level; Battery/Adc is get_adc with the set-up of the converter, over the
--   vendor's driver as a record of calls and what they do to the set-up. The other children are proofs.
-- - Temp (calk_temp of src/app_soc_temp.c): the running average of the temperature.
-- - Bthome (src/bthome_beacon.c): the advertising packets. Bthome/Decode and Bthome/Sealed read them
--   as a receiver does, Bthome/Nonces is about the nonces of successive packets, Bthome/Address about the
--   address in them. Ccm: the encryption
--   that it calls, as a parameter; src/ccm.c is a copy of the code of mbed TLS.
-- - App (src/app_main.c, the event handler of src/app_ble.c): one round of main_loop, composed of its
--   stages as the code has them, and one event. The stack's own
--   loop is a function on the state, since it runs callbacks. Each step lists the calls that
--   it makes; what the voltage measurement does inside is in Battery, and the packets are in Bthome.
--   App/Led is the LED pin, App/Dump test_otp.
-- - Boot (user_init_normal and user_init_deepRetn of src/app_main.c, app_ble_init of src/app_ble.c,
--   src/main.c): the start, composed of the voltage check, load_config and calk_temp, with the calls
--   to the stack as a list; Boot/Cold is the start after the power was off.
-- - Att (src/app_att.h, src/app_att.c): the handles, the attribute table and what it declares
--   (Att/Declared), and the serial number (Att/Serial).
-- - Printf (src/sws_printf.c): the numbers and formats as the characters that they print;
--   Printf/Console, the buffer that the host reads, and Printf/Send, sws_printf over it. What the host
--   does (it takes what is handed over, or opens a closed buffer) is an argument; Printf/Wait is the wait for it on the system timer. Printf/Serial is the
--   output by a pin, and a receiver.
-- - Otp (src/otp.c): reading the OTP memory by its registers. The file does not compile for the chip that
--   it is for, and only test_otp calls it.
-- - Protect (src/app_flash_protect.c): the locking of the flash around an update. It is not compiled in
--   (APP_FLASH_PROTECTION_ENABLE is 0).
--
-- Bounds and fuel: the searches and the packing loop run on fuel of 4096, the size of a sector; each
-- round moves on by two bytes or more, so that this is enough, and the theorems hold with no
-- hypothesis on fuel. The loop of puti runs on fuel of 49, its own bound; 32 rounds are enough for a
-- 32-bit number. The wait of sws_ready runs on fuel of 480001, since the timer advances in each round
-- and the timeout is 480000 ticks. A byte of flash is a native number; the laws of the driver keep
-- bytes below 256 where the data are. USE_EEP_BANKS is 0, FLASH_BASE_ADDR is 0 and the bank is
-- 0xC000 to 0xDFFF, so that no address wraps. The sums of calk_temp and the length of a request have
-- their wrap-around at 32 bits written out. Where a signed int overflows, C leaves the value undefined:
-- the measuring interval of test_dev_cfg is none then, and what the program runs with is an argument. The width of a format
-- is a number below 2 ^ 31 in the code and unbounded here. An interrupted write has programmed a prefix of the bytes of a call.
--
-- Not modelled: the vendor's SDK (sdk_ble) and tools; src/ccm.c, a copy of a library; the
-- buffers of src/app_buffer.c; in src/sws_printf.c the delay of a bit by the clock and the interrupts;
-- in src/otp.c the waits for the hardware.
pub mod App
pub mod Att
pub mod Battery
pub mod Boot
pub mod Bthome
pub mod Ccm
pub mod Cmd
pub mod Data
pub mod Eep
pub mod Flash
pub mod Otp
pub mod Prelude
pub mod Printf
pub mod Protect
pub mod Services
pub mod Temp
