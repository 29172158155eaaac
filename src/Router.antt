-- ===== src/Router.antt =====
-- quote/router.rs: the parts of the router that read no state.
pub mod Venue
pub mod Amounts
pub mod Best
pub mod Reserves
pub mod Legs
