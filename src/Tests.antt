-- ===== src/Tests.antt =====
-- Concrete inputs: what the properties say of them.
mod Data
mod Codec
mod Contract
mod Reply
mod Transport
mod Teacher
mod Controller
mod Review
mod Uncertainty
mod Bundle
mod Dialogue
