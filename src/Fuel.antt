-- ===== src/Fuel.antt =====
-- The fuel of the receive loops of src/Server.cpp: how much of it a run of the program needs.
pub mod Enough
pub mod Total
