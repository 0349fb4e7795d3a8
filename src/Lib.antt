-- ===== src/Lib.antt =====
-- The verified core of a proof-of-work miner for the MatMul chain (clean-stack).
--
-- The program. The miner takes a job from a pool or a node, fills in a block header, and searches
-- nonces whose digest is at most a target. core/matmul/pow_solve.cpp holds the difficulty rules
-- (which target the next block needs, and whether a header meets it) and the solve loops;
-- core/matmul/matmul_pow.cpp hashes a header; core/matmul/matmul_v4_rc.cpp and
-- matmul_v4_rc_coupled.cpp compute the digests; miner/ is the program around them. All paths are below
-- clean-stack/.
--
-- The files.
--   Common            tests, lists, integers, 256-bit arithmetic, little-endian bytes.
--   Pow/Target        the saturating arithmetic on targets (SaturatingLeftShift256 and its kin).
--   Pow/Chain         blocks, parameters, the vendored calls; FindGenesisBlockIndex.
--   Pow/Asert         CalculateMatMulAsertTarget.
--   Pow/Retarget      MatMulAsert with its bootstrap, retune and upgrade blocks.
--   Pow/Dgw           the Dark Gravity Wave rules.
--   Pow/Work          GetNextWorkRequired, DeriveTarget, PermittedDifficultyTransition and their kin.
--   Solve/Header      ComputeMatMulHeaderHash, DeriveSigma, RCBankTemplateHash.
--   Solve/Seeds       SetDeterministicMatMulSeeds.
--   Solve/Loop        SolveMatMulRCEpisode and SolveMatMulRCCoupled, over a shared search.
--   Solve/Dispatch    SolveMatMul: the variant by height, the two gates, the effective target.
--   Rc/Merkle         the hash tree of a round (matmul_v4_rc.cpp).
--   Rc/Mantissa       the table of mantissas, and the filling of a tile (matmul_v4_rc.cpp).
--   Rc/ChaCha         the key stream of a tile (matmul_v4_rc.cpp).
--   Rc/Draw           drawing values from the blocks of a stream by rejection.
--   Rc/Expand         the operands of a seed: expand_mx_dequant_i8 and the tagged hashes.
--   Rc/Tile           extract_mx_tile_i64 and extract_mx_matrix_i64.
--   Rc/Episode        run_episode_impl: Recall, the fused layers, the roots of the rounds.
--   Rc/Coupled        run_coupled_with_bank and the calls around it; Mix, Bank and the shape gate.
--   Rc/Gemm           lobe_gemm_add (matmul_v4_rc_coupled.cpp).
--   Rc/Xof            the word stream ShaXof (matmul_v4_rc_coupled.cpp).
--   Rc/Shuffle        balanced_perm, apply_perm, select_pages (matmul_v4_rc_coupled.cpp).
--   Miner/Version     VersionGreater and DecideUpdate.
--   Miner/Driver      the floor on the CUDA driver.
--   Miner/Cursor      the table of nonce cursors.
--   Miner/Pool        the header templates of the pool's jobs (miner/poolcore.h).
--   Miner/Json        the text fields that the miner writes (miner/poolcore.h).
--   Miner/Fields      how a field is read from a line (PcGetString, PcGetU64).
--   Miner/Stratum     FeedRecvBytes and the reader loop (miner/stratum_client.h).
--   Miner/UniValue    the JSON values as operations, and the readers of numbers, ids and errors.
--   Miner/Notify      a stratum job; ParseNotifyParams and ParseLuckyPoolJob.
--   Miner/Client      the state of a stratum connection; DispatchLine and its handlers.
--   Miner/Latch       the height of the episode rules: pin, latch and release (params.h,
--                     MaybeLatchRCFromJob, MaybeLatchRCFromTemplate).
--   Miner/PoolLoop    BuildHeaderFromJob and RunPoolLoop, over the solver (miner/matador-miner.cpp).
--   Miner/Solo        SolveAndSubmit: threads, winner and submission (miner/solo_mining.h).
--   Miner/Endpoint    ParsePoolEndpoint and SplitHostPort (miner/endpoint_parse.h).
--   Miner/Loop        RunPoolcoreLoop: its messages, jobs, answers and the state of the solve.
--   Miner/Loop/Thread the three solve threads, over the targets that they read.
-- The Tests modules apply the theorems at concrete inputs.
--
-- The correspondence. A definition has the name of the C++ function in snake case. A CBlockIndex* is the
-- list of blocks back from it; a uint256 is its numeric value in Pow and Solve, and its bytes in Rc. State
-- is passed: a solve loop returns its value with the header, the remaining tries and the counter.
-- Unsigned words wrap where the source lets them (% 2 ^ w); signed values are integers where the
-- source's cannot overflow.
--
-- Parameters. SHA-256, the compact encoding of targets, GetAncestor and the activation tests of
-- Consensus::Params belong to vendored code and are arguments. Of the compact encoding it is relied on
-- that encoding a nonzero target and decoding it gives a nonzero target that is no larger, without
-- a flag; of SHA-256, that it returns 32 bytes. The digests are arguments of the solver.
--
-- Bounds and fuel. The solve loop recurses on max_tries, as the source counts it down. The Merkle
-- levels and the doubling of the padding run on fuel, the number of leaves, which is shown to be enough.
-- A FindGenesisBlockIndex walk recurses on the chain. A stream that is drawn from by rejection runs on
-- fuel, the number of its blocks, since SHA-256 may reject for ever; a result is the same for any larger
-- number. The stages of a mix and the digits of a
-- layer's number are bounded by the width of the word, 32 and 10.
--
-- The JSON library, uint256::FromHex and the answers of pools and nodes are arguments too.
--
-- How they meet. A line that the reader passes on is dispatched (Miner/Client); a job in it goes to the
-- latch (Miner/Latch) and becomes the current job; the pool loop (Miner/PoolLoop) builds a header from it
-- and calls SolveMatMul (Solve/Dispatch) in passes, and a share that it finds is submitted. Threads meet
-- only at locks and atomics, so a connection, the latch and the loop are runs over lists of events, in
-- the order in which they take effect. The height of the episode rules may change between any two steps of
-- the pool loop: each step takes the activation that it reads. The abort flag is armed by the pool loop,
-- raised by new work and by the end of the reader.
--
-- Not modelled. Log lines, statistics and the clock, sockets, TLS and SOCKS, the text of the subscribe,
-- submit and metrics messages, the RPC transport, the assembly of a solo block and the second try of blocks parked before, the configuration, the
-- choice between the two pool sessions by the fee window, the share callback of the pool loop (SolveMatMul
-- calls it nowhere), the CUDA backends (byte-exact to the CPU code by the harness), file and device I/O,
-- two functions of matmul_v4_rc.cpp that nothing calls (gemm_s8s8, transpose_s8), and the wrappers
-- there that only change the type of a hash.
pub mod Common
pub mod Pow
pub mod Solve
pub mod Miner
pub mod Rc
