-- ===== src/Cdp/Items/Announce.antt =====
-- The announcement, naming, user and image items of pkg/cdp/items.go, with their decoders.
pub mod Framing
use cdp_go.Base.{Bytes, List, if◌then◌else◌, length, ltb, ℕ}
use cdp_go.Cdp.ItemError.{Decoded, short}
use cdp_go.Cdp.Items.Tail.{entries, null_strip}
use cdp_go.Cdp.Readers.{slice, slice_from, u16, u32, u64, u8}
use cdp_go.Cdp.Result.{err, ok, ◌>>=◌}
use cdp_go.Cdp.Serial.{Serial}

pub record Image : Type 0 where
  pub type : ℕ
  pub version : Bytes
  pub sha1 : Bytes

unfoldable pub decode_image : Bytes → Decoded Image
decode_image rest = do
  type ← u8 rest 0
  version ← slice rest 1 33
  sha1 ← slice rest 33 53
  ok (record { type = type; version = null_strip version; sha1 = sha1 })

pub record CdpStreamInformation : Type 0 where
  pub destination_ip : ℕ
  pub destination_port : ℕ
  pub interface_ip : ℕ
  pub interface_netmask : ℕ
  pub interface_port : ℕ
  pub ttl : ℕ
  pub name : Bytes

unfoldable pub decode_cdp_stream_information : Bytes → Decoded CdpStreamInformation
decode_cdp_stream_information b = if ltb (length b) 17 then err short else do
  destination_ip ← u32 b 0
  destination_port ← u16 b 4
  interface_ip ← u32 b 6
  interface_netmask ← u32 b 10
  interface_port ← u16 b 14
  ttl ← u8 b 16
  name ← slice_from b 17
  ok (record {
    destination_ip = destination_ip;
    destination_port = destination_port;
    interface_ip = interface_ip;
    interface_netmask = interface_netmask;
    interface_port = interface_port;
    ttl = ttl;
    name = null_strip name;
  })

pub record HostnameAnnounce : Type 0 where
  pub hostname : Bytes

unfoldable pub decode_hostname_announce : Bytes → Decoded HostnameAnnounce
decode_hostname_announce b = ok (record { hostname = null_strip b })

pub record InstanceAnnounce : Type 0 where
  pub instance_name : Bytes

unfoldable pub decode_instance_announce : Bytes → Decoded InstanceAnnounce
decode_instance_announce b = ok (record { instance_name = null_strip b })

pub record AppSettingsChunk : Type 0 where
  pub number_of_chunks : ℕ
  pub chunk_id : ℕ
  pub instance_name : Bytes
  pub chunk_data : Bytes

unfoldable pub decode_app_settings_chunk : Bytes → Decoded AppSettingsChunk
decode_app_settings_chunk b = if ltb (length b) 260 then err short else do
  number_of_chunks ← u16 b 0
  chunk_id ← u16 b 2
  instance_name ← slice b 4 260
  chunk_data ← slice_from b 260
  ok (record {
    number_of_chunks = number_of_chunks;
    chunk_id = chunk_id;
    instance_name = null_strip instance_name;
    chunk_data = chunk_data;
  })

pub record DeviceNames : Type 0 where
  pub serial_number : Serial
  pub name : Bytes

unfoldable pub decode_device_names : Bytes → Decoded DeviceNames
decode_device_names b = if ltb (length b) 4 then err short else do
  serial_number ← u32 b 0
  name ← slice_from b 4
  ok (record { serial_number = serial_number; name = null_strip name })

pub record UserDefinedV2 : Type 0 where
  pub serial_number : Serial
  pub payload : Bytes

unfoldable pub decode_user_defined_v2 : Bytes → Decoded UserDefinedV2
decode_user_defined_v2 b = if ltb (length b) 4 then err short else do
  serial_number ← u32 b 0
  payload ← slice_from b 4
  ok (record { serial_number = serial_number; payload = payload })

pub record UserDefinedV3 : Type 0 where
  pub serial_number : Serial
  pub network_time : ℕ
  pub payload : Bytes

unfoldable pub decode_user_defined_v3 : Bytes → Decoded UserDefinedV3
decode_user_defined_v3 b = if ltb (length b) 12 then err short else do
  serial_number ← u32 b 0
  network_time ← u64 b 4
  payload ← slice_from b 12
  ok (record { serial_number = serial_number; network_time = network_time; payload = payload })

pub record ImageDiscoveryV1 : Type 0 where
  pub manufacturer : Bytes
  pub product : Bytes
  pub running_image_type : ℕ
  pub image_information : List Image

unfoldable pub decode_image_discovery_v1 : Bytes → Decoded ImageDiscoveryV1
decode_image_discovery_v1 b = if ltb (length b) 97 then err short else do
  manufacturer ← slice b 0 64
  product ← slice b 64 96
  running_image_type ← u8 b 96
  rest ← slice_from b 97
  image_information ← entries 53 decode_image rest
  ok (record {
    manufacturer = null_strip manufacturer;
    product = null_strip product;
    running_image_type = running_image_type;
    image_information = image_information;
  })

pub record ImageDiscoveryV2 : Type 0 where
  pub vid : ℕ
  pub pid : ℕ
  pub running_image_type : ℕ
  pub tlvs : Bytes

unfoldable pub decode_image_discovery_v2 : Bytes → Decoded ImageDiscoveryV2
decode_image_discovery_v2 b = if ltb (length b) 3 then err short else do
  vid ← u8 b 0
  pid ← u8 b 1
  running_image_type ← u8 b 2
  tlvs ← slice_from b 3
  ok (record { vid = vid; pid = pid; running_image_type = running_image_type; tlvs = tlvs })
