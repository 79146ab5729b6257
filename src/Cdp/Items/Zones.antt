-- ===== src/Cdp/Items/Zones.antt =====
-- The zone and drawing items of pkg/cdp/items.go, with their decoders.
pub mod Framing
use cdp_go.Base.{Bytes, List, if◌then◌else◌, length, ltb, ℕ}
use cdp_go.Base.Int.{ℤ}
use cdp_go.Cdp.ItemError.{Decoded, short}
use cdp_go.Cdp.Items.Tail.{entries, null_strip, read_all}
use cdp_go.Cdp.Readers.{i32, slice, slice_from, u16, u32, u8}
use cdp_go.Cdp.Result.{err, ok, ◌>>=◌}
use cdp_go.Cdp.Serial.{Serial}

pub record XyCoordinate : Type 0 where
  pub x : ℤ
  pub y : ℤ

unfoldable pub decode_xy_coordinate : Bytes → Decoded XyCoordinate
decode_xy_coordinate rest = do x ← i32 rest 0; y ← i32 rest 4; ok (record { x = x; y = y })

pub record GeofencerZoneInfo : Type 0 where
  pub zone_id : ℕ
  pub zone_name : Bytes
  pub z_min : ℤ
  pub z_max : ℤ
  pub hysteresis : ℕ
  pub vertices : List XyCoordinate

unfoldable pub decode_geofencer_zone_info : Bytes → Decoded GeofencerZoneInfo
decode_geofencer_zone_info b = if ltb (length b) 64 then err short else do
  zone_id ← u16 b 0
  zone_name ← slice b 2 52
  z_min ← i32 b 52
  z_max ← i32 b 56
  hysteresis ← u32 b 60
  rest ← slice_from b 64
  vertices ← entries 8 decode_xy_coordinate rest
  ok (record {
    zone_id = zone_id;
    zone_name = null_strip zone_name;
    z_min = z_min;
    z_max = z_max;
    hysteresis = hysteresis;
    vertices = vertices;
  })

pub record TagZoneInfo : Type 0 where
  pub serial_number : Serial
  pub zone_list : List ℕ

unfoldable pub decode_tag_zone_info : Bytes → Decoded TagZoneInfo
decode_tag_zone_info b = if ltb (length b) 4 then err short else do
  rest ← slice_from b 4
  zone_list ← read_all u16 2 rest
  serial_number ← u32 b 0
  ok (record { serial_number = serial_number; zone_list = zone_list })

pub record DrawPrism : Type 0 where
  pub name : Bytes
  pub red : ℕ
  pub green : ℕ
  pub blue : ℕ
  pub alpha : ℕ
  pub z_min : ℤ
  pub z_max : ℤ
  pub vertices : List XyCoordinate

unfoldable pub decode_draw_prism : Bytes → Decoded DrawPrism
decode_draw_prism b = if ltb (length b) 62 then err short else do
  name ← slice b 0 50
  red ← u8 b 50
  green ← u8 b 51
  blue ← u8 b 52
  alpha ← u8 b 53
  z_min ← i32 b 54
  z_max ← i32 b 58
  rest ← slice_from b 62
  vertices ← entries 8 decode_xy_coordinate rest
  ok (record {
    name = null_strip name;
    red = red;
    green = green;
    blue = blue;
    alpha = alpha;
    z_min = z_min;
    z_max = z_max;
    vertices = vertices;
  })

pub record ClearObject : Type 0 where
  pub name : Bytes

unfoldable pub decode_clear_object : Bytes → Decoded ClearObject
decode_clear_object b =
    if ltb (length b) 50
    then err short
    else do name ← slice b 0 50; ok (record { name = null_strip name })
