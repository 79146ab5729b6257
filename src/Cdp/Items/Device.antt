-- ===== src/Cdp/Items/Device.antt =====
-- The sensor and device status items of pkg/cdp/items.go, with their decoders.
pub mod Framing
pub mod Wire
use cdp_go.Base.{Bytes, List, if◌then◌else◌, length, ltb, map, ℕ}
use cdp_go.Base.Int.{ℤ}
use cdp_go.Cdp.ItemError.{Decoded, short}
use cdp_go.Cdp.Readers.{i16, i32, i8, slice_from, u16, u32, u64, u8}
use cdp_go.Cdp.Result.{err, ok, ◌>>=◌}
use cdp_go.Cdp.Serial.{Serial}

pub record ErrorPattern : Type 0 where
  pub pattern : ℕ

-- The loop over the bytes behind the fixed part.
unfoldable pub error_patterns : Bytes → List ErrorPattern
error_patterns = map (λ p. record { pattern = p })

pub record PressureV2 : Type 0 where
  pub serial_number : Serial
  pub network_time : ℕ
  pub pressure : ℤ
  pub scale : ℕ

unfoldable pub decode_pressure_v2 : Bytes → Decoded PressureV2
decode_pressure_v2 b = if ltb (length b) 20 then err short else do
  serial_number ← u32 b 0
  network_time ← u64 b 4
  pressure ← i32 b 12
  scale ← u32 b 16
  ok (record {
    serial_number = serial_number;
    network_time = network_time;
    pressure = pressure;
    scale = scale;
  })

pub record TemperatureV2 : Type 0 where
  pub serial_number : Serial
  pub network_time : ℕ
  pub temperature : ℤ
  pub scale : ℕ

unfoldable pub decode_temperature_v2 : Bytes → Decoded TemperatureV2
decode_temperature_v2 b = if ltb (length b) 16 then err short else do
  serial_number ← u32 b 0
  network_time ← u64 b 4
  temperature ← i16 b 12
  scale ← u16 b 14
  ok (record {
    serial_number = serial_number;
    network_time = network_time;
    temperature = temperature;
    scale = scale;
  })

pub record DeviceActivityState : Type 0 where
  pub serial_number : Serial
  pub interface_id : ℕ
  pub x : ℤ
  pub y : ℤ
  pub z : ℤ
  pub role_id : ℕ
  pub connectivity_state : ℕ
  pub synchronization_state : ℕ

unfoldable pub decode_device_activity_state : Bytes → Decoded DeviceActivityState
decode_device_activity_state b = if ltb (length b) 20 then err short else do
  serial_number ← u32 b 0
  interface_id ← u8 b 4
  x ← i32 b 5
  y ← i32 b 9
  z ← i32 b 13
  role_id ← u8 b 17
  connectivity_state ← u8 b 18
  synchronization_state ← u8 b 19
  ok (record {
    serial_number = serial_number;
    interface_id = interface_id;
    x = x;
    y = y;
    z = z;
    role_id = role_id;
    connectivity_state = connectivity_state;
    synchronization_state = synchronization_state;
  })

pub record DeviceHardwareStatusV2 : Type 0 where
  pub serial_number : Serial
  pub memory : ℕ
  pub flags : ℕ
  pub minutes_remaining : ℕ
  pub battery_percentage : ℕ
  pub temperature : ℤ
  pub processor_usage : ℕ
  pub error_patterns : List ErrorPattern

unfoldable pub decode_device_hardware_status_v2 : Bytes → Decoded DeviceHardwareStatusV2
decode_device_hardware_status_v2 b = if ltb (length b) 17 then err short else do
  serial_number ← u32 b 0
  memory ← u32 b 4
  flags ← u32 b 8
  minutes_remaining ← u16 b 12
  battery_percentage ← u8 b 14
  temperature ← i8 b 15
  processor_usage ← u8 b 16
  rest ← slice_from b 17
  let error_patterns = error_patterns rest
  ok (record {
    serial_number = serial_number;
    memory = memory;
    flags = flags;
    minutes_remaining = minutes_remaining;
    battery_percentage = battery_percentage;
    temperature = temperature;
    processor_usage = processor_usage;
    error_patterns = error_patterns;
  })

pub record DeviceStatusV3 : Type 0 where
  pub serial_number : Serial
  pub memory : ℕ
  pub flags : ℕ
  pub minutes_remaining : ℕ
  pub battery_percentage : ℕ
  pub temperature : ℤ
  pub processor_usage : ℕ
  pub missed_phase_commands : ℕ
  pub missed_recovery_commands : ℕ
  pub max_widening_factor : ℕ
  pub error_patterns : List ErrorPattern

unfoldable pub decode_device_status_v3 : Bytes → Decoded DeviceStatusV3
decode_device_status_v3 b = if ltb (length b) 23 then err short else do
  serial_number ← u32 b 0
  memory ← u32 b 4
  flags ← u32 b 8
  minutes_remaining ← u16 b 12
  battery_percentage ← u8 b 14
  temperature ← i8 b 15
  processor_usage ← u8 b 16
  missed_phase_commands ← u16 b 17
  missed_recovery_commands ← u16 b 19
  max_widening_factor ← u16 b 21
  rest ← slice_from b 23
  let error_patterns = error_patterns rest
  ok (record {
    serial_number = serial_number;
    memory = memory;
    flags = flags;
    minutes_remaining = minutes_remaining;
    battery_percentage = battery_percentage;
    temperature = temperature;
    processor_usage = processor_usage;
    missed_phase_commands = missed_phase_commands;
    missed_recovery_commands = missed_recovery_commands;
    max_widening_factor = max_widening_factor;
    error_patterns = error_patterns;
  })

pub record DeviceColor : Type 0 where
  pub serial_number : Serial
  pub red : ℕ
  pub green : ℕ
  pub blue : ℕ
  pub alpha : ℕ

unfoldable pub decode_device_color : Bytes → Decoded DeviceColor
decode_device_color b = if ltb (length b) 8 then err short else do
  serial_number ← u32 b 0
  red ← u8 b 4
  green ← u8 b 5
  blue ← u8 b 6
  alpha ← u8 b 7
  ok (record {
    serial_number = serial_number;
    red = red;
    green = green;
    blue = blue;
    alpha = alpha;
  })

pub record ClearDeviceColor : Type 0 where
  pub serial_number : Serial
  pub flags : ℕ

unfoldable pub decode_clear_device_color : Bytes → Decoded ClearDeviceColor
decode_clear_device_color b = if ltb (length b) 5 then err short else do
  serial_number ← u32 b 0
  flags ← u8 b 4
  ok (record { serial_number = serial_number; flags = flags })
