-- ===== src/Cdp/Items/Device/Wire.antt =====
-- The wire formats of these items, which their decoders in pkg/cdp/items.go read.
use cdp_go.Base.{Bytes, drop, take, ◌++◌, ◌<◌, ◌^◌, ◌≡◌}
use cdp_go.Base.Int.{IsWithin}
use cdp_go.Cdp.Items.Device.{
  ClearDeviceColor, DeviceActivityState, DeviceColor, PressureV2, TemperatureV2,
  decode_clear_device_color, decode_device_activity_state, decode_device_color, decode_pressure_v2,
  decode_temperature_v2,
}
use cdp_go.Cdp.Readers.{i16, i32, slice, u16, u32, u64, u8}
use cdp_go.Cdp.Readers.Fields.{signed-le_int}
use cdp_go.Cdp.Readers.Wire.{le, le_int, le_value-le}
use cdp_go.Cdp.Result.{ok}

pub record IsPressureV2 (a : PressureV2) : Type 0 where
  pub serial_number : a.serial_number < 2 ^ 32
  pub network_time : a.network_time < 2 ^ 64
  pub pressure : IsWithin (2 ^ 32) a.pressure
  pub scale : a.scale < 2 ^ 32

unfoldable pub pressure_v2_wire : PressureV2 → Bytes
pressure_v2_wire a =
    le 4 a.serial_number ++ le 8 a.network_time ++ le_int 4 a.pressure ++ le 4 a.scale

pub decode_pressure_v2-wire :
    (a : PressureV2) → IsPressureV2 a → decode_pressure_v2 (pressure_v2_wire a) ≡ ok a
unfolding decode_pressure_v2 pressure_v2_wire u32 u64 i32 slice le take drop
decode_pressure_v2-wire a h = λ i. ok (record {
  serial_number = le_value-le 4 a.serial_number h.serial_number i;
  network_time = le_value-le 8 a.network_time h.network_time i;
  pressure = signed-le_int 3 a.pressure h.pressure i;
  scale = le_value-le 4 a.scale h.scale i;
})

pub record IsTemperatureV2 (a : TemperatureV2) : Type 0 where
  pub serial_number : a.serial_number < 2 ^ 32
  pub network_time : a.network_time < 2 ^ 64
  pub temperature : IsWithin (2 ^ 16) a.temperature
  pub scale : a.scale < 2 ^ 16

unfoldable pub temperature_v2_wire : TemperatureV2 → Bytes
temperature_v2_wire a =
    le 4 a.serial_number ++ le 8 a.network_time ++ le_int 2 a.temperature ++ le 2 a.scale

pub decode_temperature_v2-wire :
    (a : TemperatureV2) → IsTemperatureV2 a → decode_temperature_v2 (temperature_v2_wire a) ≡ ok a
unfolding decode_temperature_v2 temperature_v2_wire u16 u32 u64 i16 slice le take drop
decode_temperature_v2-wire a h = λ i. ok (record {
  serial_number = le_value-le 4 a.serial_number h.serial_number i;
  network_time = le_value-le 8 a.network_time h.network_time i;
  temperature = signed-le_int 1 a.temperature h.temperature i;
  scale = le_value-le 2 a.scale h.scale i;
})

pub record IsDeviceActivityState (a : DeviceActivityState) : Type 0 where
  pub serial_number : a.serial_number < 2 ^ 32
  pub interface_id : a.interface_id < 2 ^ 8
  pub x : IsWithin (2 ^ 32) a.x
  pub y : IsWithin (2 ^ 32) a.y
  pub z : IsWithin (2 ^ 32) a.z
  pub role_id : a.role_id < 2 ^ 8
  pub connectivity_state : a.connectivity_state < 2 ^ 8
  pub synchronization_state : a.synchronization_state < 2 ^ 8

unfoldable pub device_activity_state_wire : DeviceActivityState → Bytes
device_activity_state_wire a =
    le 4 a.serial_number
    ++ le 1 a.interface_id
    ++ le_int 4 a.x
    ++ le_int 4 a.y
    ++ le_int 4 a.z
    ++ le 1 a.role_id
    ++ le 1 a.connectivity_state
    ++ le 1 a.synchronization_state

pub decode_device_activity_state-wire :
    (a : DeviceActivityState)
    → IsDeviceActivityState a
    → decode_device_activity_state (device_activity_state_wire a) ≡ ok a
unfolding decode_device_activity_state device_activity_state_wire u8 u32 i32 slice le take drop
decode_device_activity_state-wire a h = λ i. ok (record {
  serial_number = le_value-le 4 a.serial_number h.serial_number i;
  interface_id = le_value-le 1 a.interface_id h.interface_id i;
  x = signed-le_int 3 a.x h.x i;
  y = signed-le_int 3 a.y h.y i;
  z = signed-le_int 3 a.z h.z i;
  role_id = le_value-le 1 a.role_id h.role_id i;
  connectivity_state = le_value-le 1 a.connectivity_state h.connectivity_state i;
  synchronization_state = le_value-le 1 a.synchronization_state h.synchronization_state i;
})

pub record IsDeviceColor (a : DeviceColor) : Type 0 where
  pub serial_number : a.serial_number < 2 ^ 32
  pub red : a.red < 2 ^ 8
  pub green : a.green < 2 ^ 8
  pub blue : a.blue < 2 ^ 8
  pub alpha : a.alpha < 2 ^ 8

unfoldable pub device_color_wire : DeviceColor → Bytes
device_color_wire a =
    le 4 a.serial_number ++ le 1 a.red ++ le 1 a.green ++ le 1 a.blue ++ le 1 a.alpha

pub decode_device_color-wire :
    (a : DeviceColor) → IsDeviceColor a → decode_device_color (device_color_wire a) ≡ ok a
unfolding decode_device_color device_color_wire u8 u32 slice le take drop
decode_device_color-wire a h = λ i. ok (record {
  serial_number = le_value-le 4 a.serial_number h.serial_number i;
  red = le_value-le 1 a.red h.red i;
  green = le_value-le 1 a.green h.green i;
  blue = le_value-le 1 a.blue h.blue i;
  alpha = le_value-le 1 a.alpha h.alpha i;
})

pub record IsClearDeviceColor (a : ClearDeviceColor) : Type 0 where
  pub serial_number : a.serial_number < 2 ^ 32
  pub flags : a.flags < 2 ^ 8

unfoldable pub clear_device_color_wire : ClearDeviceColor → Bytes
clear_device_color_wire a = le 4 a.serial_number ++ le 1 a.flags

pub decode_clear_device_color-wire :
    (a : ClearDeviceColor)
    → IsClearDeviceColor a
    → decode_clear_device_color (clear_device_color_wire a) ≡ ok a
unfolding decode_clear_device_color clear_device_color_wire u8 u32 slice le take drop
decode_clear_device_color-wire a h = λ i. ok (record {
  serial_number = le_value-le 4 a.serial_number h.serial_number i;
  flags = le_value-le 1 a.flags h.flags i;
})
