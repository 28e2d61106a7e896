-- ===== src/EndPoints.antt =====
-- The end points of the cluster harness, demos/resilience-demo/lib/end_points.py (its copy
-- testing/tools/integration/end_points.py differs in the handling of text and bytes only): readers,
-- generators, senders and receivers of framed records.
pub mod Files
pub mod Reader
pub mod Frames
pub mod Receiver
pub mod Newlines
pub mod Sender
pub mod Sequences
mod Tests
