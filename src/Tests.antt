-- ===== src/Tests.antt =====
-- Witnesses of the theorems and tests of the code at concrete inputs, over a concrete runtime and
-- service.
mod Fixture
mod Cloud
mod FileSystems
mod References
mod Resources
mod AccessPoints
mod MountTargets
mod Cycles
mod Memory
mod Copies
