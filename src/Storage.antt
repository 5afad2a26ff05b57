-- ===== src/Storage.antt =====
-- internal/storage/assetcache: the images of the upstreams, on disk with their sizes in the store.
pub mod AssetCache
pub mod Rows
pub mod Evict
pub mod Stored
pub mod Sound
