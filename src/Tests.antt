-- ===== src/Tests.antt =====
-- Runs of the modelled code at concrete inputs, and the theorems applied there.
mod Numbers
mod Header
mod Tagging
mod Classes
mod Caching
mod Linking
mod Requests
mod Freeing
mod Resizing
mod Quarantining
mod Releasing
mod Allocating
