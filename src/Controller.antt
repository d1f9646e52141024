-- ===== src/Controller.antt =====
-- python/autonomous_value_controller.py: the state machine of one reply, which transports at most a
-- given number of values into what the model says. The neural reader is a parameter.
pub mod Setup
pub mod Propose
pub mod Commit
pub mod Sound
pub mod Reach
