-- ===== src/Toml/Merge.antt =====
-- `mergeConnection` of toml.js: the keys that a form has changed are put into the text of a
-- configuration.
pub mod Raws
pub mod Places
pub mod Keys
pub mod Write
