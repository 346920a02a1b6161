-- ===== src/Go/Json.antt =====
-- Package `encoding/json`: values, their text, and the decoding of values into structs.
--
-- A `json.RawMessage` is the value that its bytes stand for. The wording of the library's own
-- errors is not modelled: a fixed text stands for each kind of error.
pub mod Value
pub mod Parse
pub mod Decode
pub mod Encode
pub mod Indent
pub mod Strings
