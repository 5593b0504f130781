-- ===== src/Panel/Config.antt =====
-- The page panel/templates/assets/js/pages/config.js: the form for the connection part of a file.
pub mod Schema
pub mod Form
pub mod Touched
pub mod Generated
pub mod Save
