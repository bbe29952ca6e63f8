-- ===== src/Transactions/Decoded.antt =====
-- What the Worker encodes is what the program decodes: each instruction against
-- `EquinoxInstruction::decode`.
mod Sent
mod Orders
mod Amounts
mod Others
pub use Sent.*
pub use Orders.*
pub use Amounts.*
pub use Others.*
