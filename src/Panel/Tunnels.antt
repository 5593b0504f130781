-- ===== src/Panel/Tunnels.antt =====
-- The page panel/templates/assets/js/pages/tunnels.js: the checks of its editors, the lists of
-- tunnels and visitors that they change, and what it loads, shows and saves.
pub mod Fields
pub mod Names
pub mod Editor
pub mod Visitors
pub mod Edits
pub mod Page
pub mod Dirty
pub mod Save
