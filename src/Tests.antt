-- ===== src/Tests.antt =====
-- A small host, and concrete runs of the theorems on it.
mod Hosts
mod Files
mod Full
mod Images
mod Volumes
mod Store
mod Driver
mod Nets
mod Program
mod System
mod Stores
mod Devices
mod Requests
mod Calls
