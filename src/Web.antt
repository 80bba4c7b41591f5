-- ===== src/Web.antt =====
-- What the client uses of the browser and of the language's own library: query strings, the local
-- storage, JSON values, and the conversions between numbers and texts.
pub mod Number
pub mod Params
pub mod Store
pub mod Value
pub mod Whole
pub mod Tally
