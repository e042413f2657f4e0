-- ===== src/Witnesses.antt =====
-- The theorems at concrete inputs.
pub mod Wire
pub mod Server
pub mod Events
pub mod Client
pub mod Parts
pub mod Png
pub mod Chat
pub mod Loop
pub mod Login
pub mod Life
