-- ===== src/Base.antt =====
-- Names that the other modules share: those of the libraries, passed on, and those of the children.
mod Tests
mod Lists
mod Common
pub mod Bits
pub mod Int
pub mod Word
pub mod Outcome
pub mod Float
pub mod Double
pub mod Loop
pub mod Store
pub mod Memory
pub mod Text
pub mod Decimal
pub use Common.*
