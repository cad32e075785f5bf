-- ===== src/Tests.antt =====
-- Runs of the models at concrete inputs.
mod Memory
mod Mandirs
mod Man
mod Whatis
mod Db
mod Text
mod System
mod Iterate
mod Preconv
