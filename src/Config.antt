-- ===== src/Config.antt =====
-- relay/config.py and relay/models.py: from the YAML document to the configuration.
pub mod Node
pub mod Result
pub mod Fields
pub mod Models
pub mod Sections
pub mod Power
pub mod Build
pub mod Environ
pub mod Interpolate
pub mod Pieces
pub mod References
pub mod Settled
pub mod Rules
pub mod Valid
pub mod Load
pub mod Mistakes
