-- ===== src/Transactions/Fields.antt =====
-- What a chain of calls of `DataWriter` wrote, as the program's readers find it: the fields stand
-- one after the other, each at the sum of the widths before it.
mod Little
mod Layout
mod Added
mod Written
pub use Little.*
pub use Layout.*
pub use Added.*
pub use Written.*
