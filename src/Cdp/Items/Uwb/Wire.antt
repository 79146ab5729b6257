-- ===== src/Cdp/Items/Uwb/Wire.antt =====
-- The wire formats of these items, which their decoders in pkg/cdp/items.go read.
use cdp_go.Base.{Bytes, drop, take, ◌++◌, ◌<◌, ◌^◌, ◌≡◌}
use cdp_go.Cdp.Items.Uwb.{
  TickV4, TickV5, TimedRxV5, TimedRxV6, UwbSignalStrength, decode_signal_strength, decode_tick_v4,
  decode_tick_v5, decode_timed_rx_v5, decode_timed_rx_v6,
}
use cdp_go.Cdp.Readers.{slice, u16, u32, u64, u8}
use cdp_go.Cdp.Readers.Wire.{le, le_value-le}
use cdp_go.Cdp.Result.{ok}

pub record IsUwbSignalStrength (s : UwbSignalStrength) : Type 0 where
  pub fp_ampl1 : s.fp_ampl1 < 2 ^ 16
  pub fp_ampl2 : s.fp_ampl2 < 2 ^ 16
  pub fp_ampl3 : s.fp_ampl3 < 2 ^ 16
  pub rx_preamble_acc : s.rx_preamble_acc < 2 ^ 16
  pub cir_power : s.cir_power < 2 ^ 16
  pub std_noise : s.std_noise < 2 ^ 16

unfoldable pub signal_strength_wire : UwbSignalStrength → Bytes
signal_strength_wire s =
    le 2 s.fp_ampl1
    ++ le 2 s.fp_ampl2
    ++ le 2 s.fp_ampl3
    ++ le 2 s.rx_preamble_acc
    ++ le 2 s.cir_power
    ++ le 2 s.std_noise

pub record IsTimedRxV5 (a : TimedRxV5) : Type 0 where
  pub tx_nt64 : a.tx_nt64 < 2 ^ 64
  pub rx_dt64 : a.rx_dt64 < 2 ^ 64
  pub rx_nt64 : a.rx_nt64 < 2 ^ 64
  pub source_serial_number : a.source_serial_number < 2 ^ 32
  pub source_interface_id : a.source_interface_id < 2 ^ 8
  pub signal_strength : IsUwbSignalStrength a.signal_strength
  pub interface_id : a.interface_id < 2 ^ 8
  pub tx_nt_quality : a.tx_nt_quality < 2 ^ 8
  pub rx_nt_quality : a.rx_nt_quality < 2 ^ 8
  pub rx_packet_type : a.rx_packet_type < 2 ^ 8

unfoldable pub timed_rx_v5_wire : TimedRxV5 → Bytes
timed_rx_v5_wire a =
    le 8 a.tx_nt64
    ++ le 8 a.rx_dt64
    ++ le 8 a.rx_nt64
    ++ le 4 a.source_serial_number
    ++ le 1 a.source_interface_id
    ++ signal_strength_wire a.signal_strength
    ++ le 1 a.interface_id
    ++ le 1 a.tx_nt_quality
    ++ le 1 a.rx_nt_quality
    ++ le 1 a.rx_packet_type

pub decode_timed_rx_v5-wire :
    (a : TimedRxV5) → IsTimedRxV5 a → decode_timed_rx_v5 (timed_rx_v5_wire a) ≡ ok a
unfolding decode_timed_rx_v5 timed_rx_v5_wire u8 u16 u32 u64 signal_strength_wire
    decode_signal_strength slice le take drop
decode_timed_rx_v5-wire a h = λ i. ok (record {
  tx_nt64 = le_value-le 8 a.tx_nt64 h.tx_nt64 i;
  rx_dt64 = le_value-le 8 a.rx_dt64 h.rx_dt64 i;
  rx_nt64 = le_value-le 8 a.rx_nt64 h.rx_nt64 i;
  source_serial_number = le_value-le 4 a.source_serial_number h.source_serial_number i;
  source_interface_id = le_value-le 1 a.source_interface_id h.source_interface_id i;
  signal_strength = record {
    fp_ampl1 = le_value-le 2 a.signal_strength.fp_ampl1 h.signal_strength.fp_ampl1 i;
    fp_ampl2 = le_value-le 2 a.signal_strength.fp_ampl2 h.signal_strength.fp_ampl2 i;
    fp_ampl3 = le_value-le 2 a.signal_strength.fp_ampl3 h.signal_strength.fp_ampl3 i;
    rx_preamble_acc =
        le_value-le 2 a.signal_strength.rx_preamble_acc h.signal_strength.rx_preamble_acc i;
    cir_power = le_value-le 2 a.signal_strength.cir_power h.signal_strength.cir_power i;
    std_noise = le_value-le 2 a.signal_strength.std_noise h.signal_strength.std_noise i;
  };
  interface_id = le_value-le 1 a.interface_id h.interface_id i;
  tx_nt_quality = le_value-le 1 a.tx_nt_quality h.tx_nt_quality i;
  rx_nt_quality = le_value-le 1 a.rx_nt_quality h.rx_nt_quality i;
  rx_packet_type = le_value-le 1 a.rx_packet_type h.rx_packet_type i;
})

pub record IsTimedRxV6 (a : TimedRxV6) : Type 0 where
  pub rx_dt64 : a.rx_dt64 < 2 ^ 64
  pub rx_nt64 : a.rx_nt64 < 2 ^ 64
  pub source_serial_number : a.source_serial_number < 2 ^ 32
  pub source_interface_id : a.source_interface_id < 2 ^ 8
  pub signal_strength : IsUwbSignalStrength a.signal_strength
  pub interface_id : a.interface_id < 2 ^ 8
  pub rx_nt_quality : a.rx_nt_quality < 2 ^ 8
  pub rx_packet_type : a.rx_packet_type < 2 ^ 8
  pub tx_sequence : a.tx_sequence < 2 ^ 8

unfoldable pub timed_rx_v6_wire : TimedRxV6 → Bytes
timed_rx_v6_wire a =
    le 8 a.rx_dt64
    ++ le 8 a.rx_nt64
    ++ le 4 a.source_serial_number
    ++ le 1 a.source_interface_id
    ++ signal_strength_wire a.signal_strength
    ++ le 1 a.interface_id
    ++ le 1 a.rx_nt_quality
    ++ le 1 a.rx_packet_type
    ++ le 1 a.tx_sequence

pub decode_timed_rx_v6-wire :
    (a : TimedRxV6) → IsTimedRxV6 a → decode_timed_rx_v6 (timed_rx_v6_wire a) ≡ ok a
unfolding decode_timed_rx_v6 timed_rx_v6_wire u8 u16 u32 u64 signal_strength_wire
    decode_signal_strength slice le take drop
decode_timed_rx_v6-wire a h = λ i. ok (record {
  rx_dt64 = le_value-le 8 a.rx_dt64 h.rx_dt64 i;
  rx_nt64 = le_value-le 8 a.rx_nt64 h.rx_nt64 i;
  source_serial_number = le_value-le 4 a.source_serial_number h.source_serial_number i;
  source_interface_id = le_value-le 1 a.source_interface_id h.source_interface_id i;
  signal_strength = record {
    fp_ampl1 = le_value-le 2 a.signal_strength.fp_ampl1 h.signal_strength.fp_ampl1 i;
    fp_ampl2 = le_value-le 2 a.signal_strength.fp_ampl2 h.signal_strength.fp_ampl2 i;
    fp_ampl3 = le_value-le 2 a.signal_strength.fp_ampl3 h.signal_strength.fp_ampl3 i;
    rx_preamble_acc =
        le_value-le 2 a.signal_strength.rx_preamble_acc h.signal_strength.rx_preamble_acc i;
    cir_power = le_value-le 2 a.signal_strength.cir_power h.signal_strength.cir_power i;
    std_noise = le_value-le 2 a.signal_strength.std_noise h.signal_strength.std_noise i;
  };
  interface_id = le_value-le 1 a.interface_id h.interface_id i;
  rx_nt_quality = le_value-le 1 a.rx_nt_quality h.rx_nt_quality i;
  rx_packet_type = le_value-le 1 a.rx_packet_type h.rx_packet_type i;
  tx_sequence = le_value-le 1 a.tx_sequence h.tx_sequence i;
})

pub record IsTickV4 (a : TickV4) : Type 0 where
  pub nt64 : a.nt64 < 2 ^ 64
  pub dt64 : a.dt64 < 2 ^ 64
  pub nt_quality : a.nt_quality < 2 ^ 8
  pub interface_id : a.interface_id < 2 ^ 8

unfoldable pub tick_v4_wire : TickV4 → Bytes
tick_v4_wire a = le 8 a.nt64 ++ le 8 a.dt64 ++ le 1 a.nt_quality ++ le 1 a.interface_id

pub decode_tick_v4-wire : (a : TickV4) → IsTickV4 a → decode_tick_v4 (tick_v4_wire a) ≡ ok a
unfolding decode_tick_v4 tick_v4_wire u8 u64 slice le take drop
decode_tick_v4-wire a h = λ i. ok (record {
  nt64 = le_value-le 8 a.nt64 h.nt64 i;
  dt64 = le_value-le 8 a.dt64 h.dt64 i;
  nt_quality = le_value-le 1 a.nt_quality h.nt_quality i;
  interface_id = le_value-le 1 a.interface_id h.interface_id i;
})

pub record IsTickV5 (a : TickV5) : Type 0 where
  pub nt64 : a.nt64 < 2 ^ 64
  pub dt64 : a.dt64 < 2 ^ 64
  pub nt_quality : a.nt_quality < 2 ^ 8
  pub interface_id : a.interface_id < 2 ^ 8
  pub sequence_number : a.sequence_number < 2 ^ 8

unfoldable pub tick_v5_wire : TickV5 → Bytes
tick_v5_wire a =
    le 8 a.nt64 ++ le 8 a.dt64 ++ le 1 a.nt_quality ++ le 1 a.interface_id ++ le 1 a.sequence_number

pub decode_tick_v5-wire : (a : TickV5) → IsTickV5 a → decode_tick_v5 (tick_v5_wire a) ≡ ok a
unfolding decode_tick_v5 tick_v5_wire u8 u64 slice le take drop
decode_tick_v5-wire a h = λ i. ok (record {
  nt64 = le_value-le 8 a.nt64 h.nt64 i;
  dt64 = le_value-le 8 a.dt64 h.dt64 i;
  nt_quality = le_value-le 1 a.nt_quality h.nt_quality i;
  interface_id = le_value-le 1 a.interface_id h.interface_id i;
  sequence_number = le_value-le 1 a.sequence_number h.sequence_number i;
})
