-- ===== src/Geofence.antt =====
-- internal/geofence: zones as polygons, and the engine that reports which tag is in which.
pub mod Names
pub mod Geometry
pub mod Config
pub mod ZoneSet
pub mod Engine
