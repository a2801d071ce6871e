-- ===== src/Example.antt =====
-- examples/app-python/example_app.py: the sample application, over the parts of the library.
pub mod CanBus
pub mod Gpio
pub mod Start
pub mod Sequences
mod Tests
