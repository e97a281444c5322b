-- ===== src/Tests.antt =====
-- Runs of the model on small inputs, and the theorems at them.
pub mod Data
mod Messages
pub mod Blocks
mod Remote
mod Decoders
mod Ccip
pub mod Codec
pub mod Listing
mod Archive
mod Loops
mod Uploads
mod Api
mod Transfers
