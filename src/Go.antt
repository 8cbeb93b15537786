-- ===== src/Go.antt =====
-- What the driver uses of the Go language and its standard library.
pub mod Strings
pub mod Error
pub mod Dict
pub mod Handler
pub mod Path
