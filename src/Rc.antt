-- ===== src/Rc.antt =====
-- core/matmul/matmul_v4_rc.cpp and matmul_v4_rc_coupled.cpp: the parts of the two puzzles' digests.
pub mod Merkle
pub mod Xof
pub mod Shuffle
pub mod Tests
pub mod Gemm
pub mod Draw
pub mod Expand
pub mod ChaCha
pub mod Tile
pub mod More
pub mod Episode
pub mod Coupled
pub mod Mantissa
