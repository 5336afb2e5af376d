-- ===== src/Tests.antt =====
-- The theorems at concrete inputs.
mod Store
mod Cache
mod Text
mod Loaders
mod Index
mod Persist
mod Archive
