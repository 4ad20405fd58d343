-- ===== src/Progress.antt =====
-- What no request undoes: a used authorization code stays used, and a revoked token or session
-- stays revoked. `Rules` has one rule for each way to build an action; the other children treat the
-- statements and the repositories.
mod Order
mod Rules
mod Statements
mod Rows
mod Codes
mod Tokens
mod Others
mod Admins
pub use Order.*
pub use Rows.*
pub use Rules.*
pub use Codes.*
pub use Tokens.*
pub use Others.*
pub use Admins.*
