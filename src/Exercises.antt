-- ===== src/Exercises.antt =====
-- The exercises of project02/trafficsim that lead to the traffic simulation: queues, and a producer with
-- a consumer.
pub mod Ring
pub mod ProdSem
pub mod Linked
mod Tests
