-- ===== src/Lib.antt =====
-- A model of xdna.cpp: Q4_0 matrix-vector products for the XDNA1 NPU and its CPU path, and the tools that
-- validate the hardware images and the device.
--
-- The parts and how they interact. A Q4_0 matrix is a sequence of blocks of 18 bytes: a binary16 scale and
-- sixteen bytes of nibbles. The scalar reference decodes and multiplies it, the CPU engine multiplies it with
-- AVX2, the prepacker arranges it for the columns of the NPU. The NPU engine wraps the CPU engine with a
-- profile, and the ggml backend runs it for the nodes of a graph. The Gate-1 validator and the device
-- discovery read files and decide what the hardware is.
--
-- Base: shared names, lists, integers and bits, words of fixed width (Word), what a call does (Outcome:
--   it returns, throws, or has undefined behaviour), loops (Loop), memories (Memory), texts (Text).
-- Q4: src/xdna-q4-0-reference.cpp. Float has the conversions between binary16, bfloat16 and binary32, Shape
--   the validation (validate_row, validate_matrix), Row the dot products, dequantize_row and the matrix
--   products; every read and write is checked there, and one outside of its buffer is a fault.
-- Prepack: src/xdna-q4-prepack.cpp. compute_layout, pack and dequantize_packed over a flat memory.
-- Engine: src/cpu-q4-gemv-engine.cpp. Simd has the vector operations as functions on lanes, Dot both dot
--   products, Metrics evaluate, Run the guard and the two paths of Q4GemvEngine::run. The parallel loop takes the order of its
--   iterations as an argument; each iteration writes its own rows.
-- Npu: src/xdna-gemv-engine.cpp, built without XRT: the state of XdnaGemvEngine, the token profile, run,
--   run_bf16 (Npu), resolve_asset_path (Assets) and evaluate (Metrics).
-- Backend: src/ggml-xdna.cpp. supports_op and compute_graph on nodes with two sources.
-- Gate1: src/xdna-gate1.cpp. Json has the text helpers, Image the reads and the section table, Metadata the
--   fields and the profile, Parse parse_gate1_metadata, Report the file and the state names, Arguments
--   parse_gate1_arguments, Print format_gate1_metadata and gate1_usage. Harness is tools/xdna-gate1.cpp: the
--   statuses with status_for, set_status and mark_unreached as a state, and run_gate1 and main in Run, for both
--   builds; an exception is an outcome, and a try block with its catch clauses is try_catch.
-- Device: src/xdna-device.cpp. parse_topology, and in Sysfs discover_sysfs over a file system.
-- Probe: src/xdna-kernel-probe.cpp. probe_kernel with the system calls as a parameter, their order, and
--   format_kernel_probe (Print).
-- Xrt: src/xdna-xrt-probe.cpp and src/xdna-xrt-probe-stub.cpp, probe_xrt with XRT as a parameter.
-- Info: tools/xdna-info.cpp, main with its arguments and exit code, and in Report format_device_report of
--   src/xdna-device.cpp.
-- Gguf: tools/xdna-gguf-info.cpp. Gguf has the type tables, Stream read and seekg of a file stream and
--   read_string, Value skip_value, Tensor the entry of a tensor and its size, Totals the sums, Inspect main up
--   to what it prints.
-- Staging: tools/test-bounded-staging-ring.cpp, the chunks that the loops stream through the two buffers.
-- Tests: runs at concrete inputs.
--
-- Numbers. A float is its bit pattern; multiplication, addition, fused multiplication and the conversion from
-- int are a parameter (Float32), so that a theorem without more assumptions holds for IEEE floats; the
-- theorem that compares the vector code with the scalar one assumes an arithmetic without rounding
-- (Engine.Dot.Exact). The arithmetic of double is a parameter too (Float64). size_t and uint32_t are natural numbers, with the wrap-around written out where an
-- operation of the source can wrap. Durations, the clock, the environment, the file system, the runtime's
-- scheduling and the calls of XRT are parameters; what a call of XRT answers may depend on the calls before it.
--
-- Fuel. The normalization loop of fp16_to_float has fuel for the ten bits of the fraction, and the pair loop of
-- the CPU engine has the number of rows, of which it needs half. The fuel of skip_value is the depth of its calls;
-- a value needs more fuel than it has arrays.
--
-- Not modelled: the build of the engine with XRT, which calls a library; the sizes and percentages in double
-- that the inspection of model files prints; the command-line tool xdna-cli, the prepack file
-- tool, benchmarks and audits; the tests. Memory is never exhausted. The tensors of the backend have sizes that
-- are not negative, and the output of a node is another buffer than its sources. Messages of exceptions of the
-- Q4_0 code are constructors with their data.
pub mod Base
pub mod Q4
pub mod Prepack
pub mod Engine
pub mod Gate1
pub mod Gguf
pub mod Npu
pub mod Backend
pub mod Device
pub mod Probe
pub mod Xrt
pub mod Info
pub mod Staging
pub mod Tests
