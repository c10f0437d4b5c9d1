-- ===== src/Pot.antt =====
-- What the pots of cmd/ftp, cmd/pop and cmd/psql share: a connection's actions, the end of a
-- session, the surroundings of a `sendEvent`, and lines of text.
mod Session
mod Lines
mod Dialogue
mod Client
pub mod Address
pub mod Pop
pub mod Ftp
pub mod Http
unfoldable pub use Session.*
unfoldable pub use Lines.*
pub use Dialogue.*
pub use Client.*
