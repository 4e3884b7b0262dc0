-- ===== src/Tests.antt =====
-- Runs on concrete data, and the theorems at concrete inputs.
mod Machine
mod Configuration
mod Containers
mod Removal
mod Editing
mod Creation
mod Choosing
mod Selection
mod Porting
mod Extensions
mod Versions
mod Commands
mod Arguments
mod Launching
mod Documentation
