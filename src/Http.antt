-- ===== src/Http.antt =====
-- src/http.cc, include/http.h: the tables of methods and of status codes, parameters, and
-- the text of a message.
pub mod Method
pub mod MethodLaws
pub mod Status
pub mod Params
pub mod ParamLaws
pub mod Dump
pub mod Decimal
pub mod Fields
pub mod FirstLine
pub mod DumpLaws
mod Tests
