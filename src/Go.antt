-- ===== src/Go.antt =====
-- The parts of Go's library that the agent uses: errors, strings, numbers and JSON.
pub mod Errors
pub mod Action
pub mod Strings
pub mod Numbers
pub mod Utf8
pub mod Regexp
pub mod Sets
pub mod Maps
pub mod Filepath
pub mod Unquote
pub mod Quote
pub mod Json
