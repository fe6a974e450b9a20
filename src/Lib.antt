-- ===== src/Lib.antt =====
-- Verification of the Python tooling of the RV OoO core project.
--
-- The repository is a RISC-V core in SystemVerilog with Python scripts that generate its reference
-- vectors, configure it and analyse its netlists. Ten of the scripts are modelled here.
--
-- Fpu is scripts/gen_fpu_diff_vectors.py, the exact RV32F oracle and the vectors made with it.
-- The text of the vectors, which main writes to a file, is not modelled.
--   Fpu/Modes: rounding modes, flags, and the exceptions as values of Result.
--   Fpu/Word: the fields and classes of a word (sign, exponent, is_nan, classify, …).
--   Fpu/Exact: fractions.Fraction in lowest terms and finite_fraction. Its children prove that the
--     fraction arithmetic is that of the values (Exact/Value) and that a word has the value of its
--     fields (Exact/Words).
--   Fpu/Round: floor_log2, round_integer, scaled_ratio, overflow_result, round_binary32.
--   Fpu/Spec: the specification of rounding, without the algorithm: words without their sign bit
--     count increasing magnitudes in units of 2^-149, and a mode chooses one of two neighbours. Its UF
--     is that of the oracle, on an inexact result below 2^-126, which is not the one of RISC-V.
--   Fpu/Sqrt, Fpu/Order, Fpu/Convert, Fpu/Arith, Fpu/Execute: the operations and their dispatch.
--   Fpu/Vectors: build_vectors and corner_vectors. Python's random.Random is a parameter, Generator,
--     with the documented bounds of its functions, IsGenerator.
--   Fpu/Tests: the assertions of the script's main, run on the model. Fpu/Examples: instances.
--
-- Soc is scripts/configure_project.py, the generator of configured copies of the project.
--   Soc/Config: the regions and the numbers that parse_number reads from a configuration.
--   Soc/Valid: what a memory map must satisfy, in addresses. Soc/Validate: validate, as the list of
--     the errors that it raises together; its children relate the two.
--   Soc/Bootrom: the instruction encoders, write_bootrom_wait_hex and write_bootrom_host_jump_hex up
--     to the words. Soc/Bootrom/Machine decodes RV32 instructions by their published encodings and
--     performs them; the other children prove what the images do on it.
--   Soc/Tests: runs, among them the image of tb/fixtures/bootrom. Soc/Examples: instances.
--   Soc/Settings: the configuration before its numbers are read, hex32, normalize, and the dialog of
--     collect_interactive on the answers. What Python's int reads in a text is a parameter; on "0x" and
--     hexadecimal digits it reads their positional value, Settings/Hex.ReadsHex.
--   Reading and copying files, the merging of files, the command line and the text replacements of the
--   generator are not modelled: they are input and output.
--
-- Smoke is scripts/dv_arithmetic_smoke.py, the reference for RV32I arithmetic.
--   Smoke/Evaluate: evaluate, on instructions whose text has been split. Smoke/Registers: what it
--     does to the registers. Smoke/Seed: the lines that give the registers their first values.
--     Smoke/Examples: runs and instances. Smoke/Trace: the comparison of a
--     commit trace with the expected commits in main, a step for each row; Smoke/Trace/Commits says
--     what it accepts. The loop that writes the payload is not modelled, since the generator of its
--     instructions is a third-party package.
--
-- Tracer is scripts/trace_full_array_path.py, which finds the costliest register-to-register paths of
-- a flattened netlist.
--   Tracer/Sigspec: Graph.bits and the split of Graph.aliases, on the tokens that TOKENS finds; its
--     children print signals and prove what is read back.
--   Tracer/Roots: Graph.root with its path halving, and the merging loop of Graph.aliases.
--   Tracer/Load: first_pass, on the lines of the file, whose words are data. Tracer/Build: second_pass
--     and its finish. The children of both prove what the two passes make of a netlist.
--   Tracer/Arrival: evaluate, the search with an explicit stack. Tracer/Trace: exact, matched, and trace
--     from the selection up to the ranked targets.
--   Tracer/Result: the exceptions as values. Tracer/Examples: a small netlist.
--   An array entry of -1 is `none`. Floats are a parameter, Costs, with the laws of IsOrdered: a total
--   order that adding a cost and rounding to single precision keep, without NaN or overflow. What a
--   regular expression matches and the order of the ranked triples are parameters. The chain of parents
--   of a bit is shorter than the array, so that root has that many rounds; take has twice the number of
--   tokens and two; evaluate has five rounds for each node and six. The paths back from the targets and
--   the report are not modelled.
--
-- Hierarchy is scripts/trace_hierarchical_array_path.py, which flattens a hierarchical netlist for the
-- tracer.
--   Hierarchy/Read: the modules of the file, from its lines, whose words are data. Hierarchy/Expand:
--     _expand, with as much fuel as there are modules, and one. Hierarchy/Lower: the flip-flop cells as
--     gates; Lower/Gates gives the gates and the types of flip-flops their meaning. Hierarchy/Stream:
--     wire, value, logic and stream. Hierarchy/Examples: a flattened file.
--   The names that stream generates are data, a serial number and a suffix. The digest of the file and
--   main, which hands the lines to the tracer, are not modelled.
--
-- Chains is scripts/find_comb_chains.py, which finds the combinational arcs of modules and the chains of
-- them from register to register.
--   Chains/Netlist: the JSON netlist as data, Mod and the drivers. Chains/Search: the recursion with a
--     memo and a guard against cycles that deps and hop share; its children compare it with the plain
--     recursion. Chains/Analyze: deps. Chains/Summarize: the loops of analyze, and the port table of
--     summarize. Chains/Order: topo_order. Chains/Hops: chain_search. Chains/Examples: runs.
--   A call for a net or a module that is not in the memo spends fuel; the nets of an acyclic module need
--   as much as the deepest of them is deep. The number of a chain is one more than in the source, where
--   -1 means none. The parameters of a memory have their numbers read. short and the report that main
--   prints are not modelled.
--
-- Named is scripts/trace_named_path.py, which finds the longest paths through named signals.
--   Named/Signals: the wires, the lines and parse_one, whose tokens are data, and union on the bits.
--     Named/Graph: the graph that the cells make. Named/Arrival: arrival and path_of; Arrival/Runs has the
--     rounds of its loop as a relation and the arrivals, Arrival/Greatest the loop over the inputs. Named/Examples: runs, one of them on a cycle.
--   Floats are a parameter, with the laws of IsOrdered: `>` is that of a total preorder, and costs stay
--   above -2e9. The selected sources are a parameter. The rounds of arrival are a parameter, since
--   the loop need not end on a cycle; without one, some number of rounds is enough. The names of the bits
--   (rep_name, nm) and the report are not modelled.
--
-- Checks is scripts/check_pmp_fetch_boundary.py (Checks/Boundary), check_pmp_refetch_trace.py
-- (Checks/Refetch) and check_csr_trace.py (Checks/Csr): their assertions on a commit trace, whose rows
-- have their numbers read. Checks/Rows and Checks/Asserts are what they share.
--
-- The other scripts are not modelled: trace_backend_int_paths, a list of calls of the tracer, the drivers
-- of external tools (the other check_*, run_fpu_corners), the diagrams
-- and the bundle export.
--
-- Words are natural numbers; theorems about words state the bound 2^32 where it matters. A shift is
-- a multiplication or division by a power of two, a mask of low bits a remainder, and disjoint bit
-- fields are joined by addition. The loops of gcd, bit_length and isqrt recur on fuel: gcd on its
-- second argument plus one, since a remainder falls each round; bit_length and isqrt on the number
-- itself, which is at least its number of digits. Theorems about rounding never assume that a loop
-- ended: they prove the result.
pub mod Base
pub mod Chains
pub mod Checks
pub mod Fpu
pub mod Hierarchy
pub mod Named
pub mod Smoke
pub mod Soc
pub mod Tracer
