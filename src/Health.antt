-- ===== src/Health.antt =====
-- portable/home-stack/admin/main.go, `collectServices` and `deriveOverall`, and incidents.go: the
-- state of each service, the incidents, and the state of the stack.
mod Status
mod Alerts
pub mod Incidents
pub mod Overall
pub mod Routes
pub mod Stack
pub mod Network
pub mod Sound
unfoldable pub use Status.*
unfoldable pub use Alerts.*
