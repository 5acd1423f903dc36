-- ===== src/Batch.antt =====
-- overstate_ui/tasks_batch.py: gated wave batches, the split of a roster into waves and the loop that
-- publishes them.
pub mod Split
pub mod Waves
mod Examples
