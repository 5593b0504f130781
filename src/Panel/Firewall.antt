-- ===== src/Panel/Firewall.antt =====
-- The page panel/templates/assets/js/pages/firewall.js: the rules of the firewall as they are edited.
pub mod Words
pub mod Sources
pub mod Rules
