-- ===== src/Router.antt =====
-- providers/router.py, class `ProviderRouter`: one symbol and capability is routed along an ordered
-- chain of providers.
mod Segments
mod Chain
mod Every
mod Checks
pub mod Table
pub mod Merged
pub mod Answers
pub mod Failures
pub mod Flights
pub mod Shared
pub mod Joins
pub mod Substitute
pub mod Cleanups
mod Scenarios
mod FlightRuns
