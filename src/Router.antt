-- ===== src/Router.antt =====
-- `DTNRouter` (dtn/router.py), the base class of the bundle routers: attempts at exchanges and their
-- back-off, bundles that arrive, discovery, the mesh schedule and the exchange itself. Sockets,
-- threads and the log are left out; times and durations are whole microseconds, from 0 on.
pub mod Attempts
pub mod Control
pub mod Discovery
pub mod Exchange
pub mod Mesh
pub mod Policy
pub mod Remember
pub mod Wire
