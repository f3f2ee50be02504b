-- ===== src/Tests.antt =====
-- Runs of the models on concrete inputs, and the theorems at such inputs.
mod Tables
mod Syncing
mod Messages
mod History
mod Batching
mod Subscribing
mod Reconnecting
mod Versions
mod Pages
mod Lanes
mod Connecting
mod Pulling
mod Replying
mod Uploading
mod Files
mod Receiving
