-- ===== src/Api.antt =====
-- The custom resources of api/v1beta2, as far as the controllers of this library read them.
mod Meta
mod App
mod Service
pub use Meta.*
unfoldable pub use App.*
pub use Service.*
