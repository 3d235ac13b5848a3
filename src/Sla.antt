-- ===== src/Sla.antt =====
-- backend/src/yitu/sla: the working time calendar, the rules and the stages of a shipment.
pub mod Calendar
pub mod Service
pub mod Pauses
pub mod Breaches
