-- ===== src/Locker.antt =====
-- server/locker: the file locker, which keeps ghost files over HTTP.
pub mod Identifier
pub mod Http
pub mod Xml
pub mod Entries
pub mod Files
pub mod Requests
pub mod Connection
