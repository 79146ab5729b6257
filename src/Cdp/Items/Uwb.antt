-- ===== src/Cdp/Items/Uwb.antt =====
-- The ultra-wideband timing items of pkg/cdp/items.go, with their decoders.
pub mod Framing
pub mod Wire
use cdp_go.Base.{Bytes, if◌then◌else◌, length, ltb, ℕ, ◌+◌}
use cdp_go.Cdp.ItemError.{Decoded, short}
use cdp_go.Cdp.Readers.{slice_from, u16, u32, u64, u8}
use cdp_go.Cdp.Result.{err, ok, ◌>>=◌}
use cdp_go.Cdp.Serial.{Serial}

pub record UwbSignalStrength : Type 0 where
  pub fp_ampl1 : ℕ
  pub fp_ampl2 : ℕ
  pub fp_ampl3 : ℕ
  pub rx_preamble_acc : ℕ
  pub cir_power : ℕ
  pub std_noise : ℕ

unfoldable pub decode_signal_strength : Bytes → ℕ → Decoded UwbSignalStrength
decode_signal_strength b off = do
  fp_ampl1 ← u16 b off
  fp_ampl2 ← u16 b (off + 2)
  fp_ampl3 ← u16 b (off + 4)
  rx_preamble_acc ← u16 b (off + 6)
  cir_power ← u16 b (off + 8)
  std_noise ← u16 b (off + 10)
  ok (record {
    fp_ampl1 = fp_ampl1;
    fp_ampl2 = fp_ampl2;
    fp_ampl3 = fp_ampl3;
    rx_preamble_acc = rx_preamble_acc;
    cir_power = cir_power;
    std_noise = std_noise;
  })

pub record TimedRxV5 : Type 0 where
  pub tx_nt64 : ℕ
  pub rx_dt64 : ℕ
  pub rx_nt64 : ℕ
  pub source_serial_number : Serial
  pub source_interface_id : ℕ
  pub signal_strength : UwbSignalStrength
  pub interface_id : ℕ
  pub tx_nt_quality : ℕ
  pub rx_nt_quality : ℕ
  pub rx_packet_type : ℕ

unfoldable pub decode_timed_rx_v5 : Bytes → Decoded TimedRxV5
decode_timed_rx_v5 b = if ltb (length b) 45 then err short else do
  tx_nt64 ← u64 b 0
  rx_dt64 ← u64 b 8
  rx_nt64 ← u64 b 16
  source_serial_number ← u32 b 24
  source_interface_id ← u8 b 28
  signal_strength ← decode_signal_strength b 29
  interface_id ← u8 b 41
  tx_nt_quality ← u8 b 42
  rx_nt_quality ← u8 b 43
  rx_packet_type ← u8 b 44
  ok (record {
    tx_nt64 = tx_nt64;
    rx_dt64 = rx_dt64;
    rx_nt64 = rx_nt64;
    source_serial_number = source_serial_number;
    source_interface_id = source_interface_id;
    signal_strength = signal_strength;
    interface_id = interface_id;
    tx_nt_quality = tx_nt_quality;
    rx_nt_quality = rx_nt_quality;
    rx_packet_type = rx_packet_type;
  })

pub record TimedRxV6 : Type 0 where
  pub rx_dt64 : ℕ
  pub rx_nt64 : ℕ
  pub source_serial_number : Serial
  pub source_interface_id : ℕ
  pub signal_strength : UwbSignalStrength
  pub interface_id : ℕ
  pub rx_nt_quality : ℕ
  pub rx_packet_type : ℕ
  pub tx_sequence : ℕ

unfoldable pub decode_timed_rx_v6 : Bytes → Decoded TimedRxV6
decode_timed_rx_v6 b = if ltb (length b) 37 then err short else do
  rx_dt64 ← u64 b 0
  rx_nt64 ← u64 b 8
  source_serial_number ← u32 b 16
  source_interface_id ← u8 b 20
  signal_strength ← decode_signal_strength b 21
  interface_id ← u8 b 33
  rx_nt_quality ← u8 b 34
  rx_packet_type ← u8 b 35
  tx_sequence ← u8 b 36
  ok (record {
    rx_dt64 = rx_dt64;
    rx_nt64 = rx_nt64;
    source_serial_number = source_serial_number;
    source_interface_id = source_interface_id;
    signal_strength = signal_strength;
    interface_id = interface_id;
    rx_nt_quality = rx_nt_quality;
    rx_packet_type = rx_packet_type;
    tx_sequence = tx_sequence;
  })

pub record TickV4 : Type 0 where
  pub nt64 : ℕ
  pub dt64 : ℕ
  pub nt_quality : ℕ
  pub interface_id : ℕ

unfoldable pub decode_tick_v4 : Bytes → Decoded TickV4
decode_tick_v4 b = if ltb (length b) 18 then err short else do
  nt64 ← u64 b 0
  dt64 ← u64 b 8
  nt_quality ← u8 b 16
  interface_id ← u8 b 17
  ok (record { nt64 = nt64; dt64 = dt64; nt_quality = nt_quality; interface_id = interface_id })

pub record TickV5 : Type 0 where
  pub nt64 : ℕ
  pub dt64 : ℕ
  pub nt_quality : ℕ
  pub interface_id : ℕ
  pub sequence_number : ℕ

unfoldable pub decode_tick_v5 : Bytes → Decoded TickV5
decode_tick_v5 b = if ltb (length b) 19 then err short else do
  nt64 ← u64 b 0
  dt64 ← u64 b 8
  nt_quality ← u8 b 16
  interface_id ← u8 b 17
  sequence_number ← u8 b 18
  ok (record {
    nt64 = nt64;
    dt64 = dt64;
    nt_quality = nt_quality;
    interface_id = interface_id;
    sequence_number = sequence_number;
  })

pub record PingV5 : Type 0 where
  pub source_serial_number : Serial
  pub sequence : ℕ
  pub beacon_type : ℕ
  pub nt_quality : ℕ
  pub dt64 : ℕ
  pub nt64 : ℕ
  pub signal_strength : UwbSignalStrength
  pub interface_id : ℕ
  pub payload : Bytes

unfoldable pub decode_ping_v5 : Bytes → Decoded PingV5
decode_ping_v5 b = if ltb (length b) 37 then err short else do
  source_serial_number ← u32 b 0
  sequence ← u16 b 4
  beacon_type ← u8 b 6
  nt_quality ← u8 b 7
  dt64 ← u64 b 8
  nt64 ← u64 b 16
  signal_strength ← decode_signal_strength b 24
  interface_id ← u8 b 36
  payload ← slice_from b 37
  ok (record {
    source_serial_number = source_serial_number;
    sequence = sequence;
    beacon_type = beacon_type;
    nt_quality = nt_quality;
    dt64 = dt64;
    nt64 = nt64;
    signal_strength = signal_strength;
    interface_id = interface_id;
    payload = payload;
  })
