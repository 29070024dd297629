-- ===== src/Util.antt =====
-- util/src: the kernel's freestanding library.
pub mod Align
mod Tests
pub mod Mem
pub mod Ring
pub mod Str
pub mod Vector
pub mod Map
pub mod LinkedList
pub mod Path
