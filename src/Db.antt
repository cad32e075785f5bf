-- ===== src/Db.antt =====
-- libdb: the page index, over a key/value store of strings.
pub mod Record
pub mod Refs
pub mod Ids
pub mod Backend
pub mod Store
pub mod Version
pub mod Iterate
pub mod Delete
pub mod Lookup
pub mod Group
