-- ===== src/Synthetic.antt =====
-- providers/synthetic.py: quotes and histories that are computed from those of other instruments.
pub mod Base
pub mod Quotes
pub mod Series
pub mod Checked
pub mod Pairing
pub mod Joined
mod Scenarios
