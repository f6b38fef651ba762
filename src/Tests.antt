-- ===== src/Tests.antt =====
-- The theorems at concrete inputs, with what they rest on there.
mod Bitmap
mod Startup
mod Intel
mod Boot
mod Guests
mod Hiding
mod Outputs
mod Paging
mod Strings
mod Exits
mod Control
