-- ===== src/Switch.antt =====
-- The switch feature, from its configuration to driven pins: cpynodus_ii/features/switch.py,
-- switch_runtime.py, switch_service.py and switch_state.py, and hardware/switch_adapter.py.
pub mod Config
pub mod Plan
pub mod Hardware
pub mod Service
pub mod Startup
pub mod Boot
pub mod Restored
pub mod Apply
pub mod Binding
mod Tests
