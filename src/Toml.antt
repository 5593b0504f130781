-- ===== src/Toml.antt =====
-- panel/templates/assets/js/toml.js: reading and writing of frp's TOML configurations.
pub mod Scan
pub mod Brackets
pub mod KeyPath
pub mod Str
pub mod Ports
pub mod Hosts
pub mod Match
pub mod Headers
pub mod Inline
pub mod Lines
pub mod Connection
pub mod Merge
pub mod Pairs
pub mod Entries
pub mod Connect
pub mod Blocks
mod MergeTests
mod BlockTests
pub mod Edit
pub mod Block
pub mod Value
pub mod Tunnel
pub mod FromBlock
pub mod Generate
pub mod Parse
mod ParseTests
pub mod Unquote
