-- ===== src/Federation/Bus.antt =====
-- `startFederationBus` of packages/federation-bus/src/index.ts: the state of the bus, and one
-- function for each route of its two servers. A handler gives the new state, the response and the
-- URLs that the event is forwarded to. `now` is the time of the request.
mod State
mod Effects
mod Post
mod Routes
unfoldable pub use State.*
unfoldable pub use Effects.*
unfoldable pub use Post.*
unfoldable pub use Routes.*
