-- ===== src/Pow.antt =====
-- core/matmul/pow_solve.cpp: the target arithmetic, the retarget rules and the solve loops.
pub mod Target
pub mod Asert
pub mod Chain
pub mod Retarget
pub mod Dgw
pub mod Work
pub mod Tests
