-- ===== src/Solve.antt =====
-- core/matmul: from a block header to a winning nonce (matmul_pow.cpp, and the solve loops of
-- pow_solve.cpp).
pub mod Header
pub mod Seeds
pub mod Loop
pub mod Dispatch
pub mod Tests
