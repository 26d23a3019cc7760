-- ===== src/Go.antt =====
-- The parts of the Go language and its standard library that the program uses, as values and
-- functions: results and panics, text, maps, JSON values, file paths, HTTP responses.
pub mod Result
pub mod Store
pub mod Text
pub mod Map
pub mod Json
pub mod FilePath
pub mod Http
pub mod Duration
pub mod Float
pub mod Client
