-- ===== src/Teacher.antt =====
-- python/value_teacher_trajectory.py: trajectories that teach a reply, compiled from gold labels for
-- training only.
pub mod Targets
pub mod Labels
pub mod Trajectory
pub mod Drive
pub mod Draft
pub mod Compile
