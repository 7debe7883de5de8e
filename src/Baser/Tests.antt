-- ===== src/Baser/Tests.antt =====
-- Runs of the serdes models of src/eth/tb/baser.py at fixed inputs, and instances of their theorems.
mod Standard
mod Coder
mod Link
mod Interface
