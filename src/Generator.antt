-- ===== src/Generator.antt =====
-- tools/types-generator: the program that prints the types and services of the interface file as
-- Python, C++ and protobuf.
pub mod Text
pub mod Agreement
pub mod Interface
pub mod Proto
pub mod Py
pub mod Cpp
pub mod Main
mod Tests
mod Generated
