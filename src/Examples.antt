-- ===== src/Examples.antt =====
-- Concrete states of the kernel for the theorems.
mod Pages
mod Ports
mod Interrupts
mod Commands
mod Input
mod Text
mod Files
mod Fixed
mod Prajna
mod Network
mod Tasks
mod Screen
mod Blocks
mod Gates
mod Start
mod Disks
