-- ===== src/Cpp.antt =====
-- components/monet_core/src_cpp and include_cpp: the optional layer in C++, which the configuration leaves out by
-- default. A pointer is a number, and 0 is nullptr.
pub mod MessageBus
pub mod Agreement
pub mod CameraFrame
pub mod Queue
pub mod Button
pub mod Logger
pub mod Demo
mod Tests
