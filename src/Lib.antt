-- ===== src/Lib.antt =====
-- Verification of Libmarpa, the C core of Marpa::R2 (cpan/engine/read_only/marpa.c).
--
-- Libmarpa parses by an Earley algorithm. A program builds a grammar object by calls that add
-- symbols and rules, precomputes it, feeds tokens to a recognizer, and walks the parse forest.
-- Each public function takes its object by a pointer, checks its arguments in a fixed order, and
-- on failure writes an error code into the grammar and returns a failure indicator.
--
-- The files, each under the name of its part of marpa.c; a definition has the name of the function
-- or macro that it models:
-- - Prelude: Boolean tests, lists with native indices, and C `int` values as integers.
-- - Grammar: the symbols (`struct s_xsy`), the rules (`struct s_xrl`) and the grammar
--   (`struct marpa_g`) as records, the error codes, and the guards that all functions share. A
--   function is a map from a grammar to an outcome: a value, or an early return with the
--   indicator, both with the grammar as it then is. Grammar/Settings, Symbols, Events, Rules and
--   RuleAccess have the public functions; Grammar/Call lists them as calls, without precomputation,
--   zero-width assertions and reference counts, and runs sequences of them.
-- - Grammar/Change says what a call may do to a grammar, Grammar/Invariant what a well-formed
--   grammar is; Tables, Preserve, NewRule and Reach show that it stays so, Atomic is about failed
--   calls, Settled about reading back what was set.
-- - BitVector: the vectors of 32-bit words with their hidden words. BitVector/Bits has the laws of
--   the native bit operations, BitVector/Laws what the functions do to single bits.
--   BitVector/Full is about vectors whose words are words, BitVector/Masked about the bits out of
--   use, and BitVector/Scan has `bv_scan`, `bv_count` and the loops over the runs of a vector.
-- - Matrix: the bit matrices and Warshall's algorithm (`transitive_closure`), which precomputation
--   uses for the loop rules and the predictions. Matrix/Closure compares it with walks.
-- - Closure: `rhs_closure`, the worklist over the rules. Closure/Derived says what should follow
--   from a set of symbols, Closure/Rules what an index of the rules must have, and Closure/Loop is
--   about the loop.
-- - Census: the census of the symbols in `marpa_g_precompute`, one function for each of its stages.
--   Index has the loop over the rules and the lists of rules by symbol; Lists, Indexing, Collected
--   and Capacity are about these. Terminals, Reach, Flags, Nulls, Stages and Sets are about the
--   stages; Spec says what a census should find, and Result is about the whole.
-- - Loops: the loop rules in `marpa_g_precompute`. Lefts is about the lists of rules by their left
--   side, Steps and Rows about the matrix of unit transitions, Marks about the marks, Result and
--   Found about the whole.
-- - Rewrite: the rewrite to internal rules in `marpa_g_precompute`, from the census to the states,
--   as a function of the tables of symbols and rules that returns the internal symbols (NSY) and
--   rules (IRL). Chaf has the rewrite of a rule with properly nullable symbols, cut into pieces,
--   Rules the other rules and the whole. Variants and Expansion say what the internal rules of a
--   rule should generate and what they do, Factors is about the scan, Slices and Shapes about the
--   right sides that are copied, Turns and Pieces about the pieces, Added, Sources and Language
--   about the rules of one external rule among all, Sequences about sequence rules, Clones about
--   the internal symbols, Ranks about ranks, and Whole is about the whole.
-- - Precompute: the guards of `marpa_g_precompute`, and lists of calls with precomputation among
--   them. What precomputation does behind its guards is a parameter of these lists. Start is about
--   the way from a well-formed grammar through the guards to the census, Refused about calls on a
--   precomputed grammar, Room about the pairs of the census and the recorded size.
-- - Alternatives: the recognizer's stack of token alternatives (`t_alternatives`). Search has the
--   binary search of `alternative_insertion_point`, Insert and Pop the changes to the stack.
-- - Cil: the counted integer lists and the arena that shares them (`struct s_cil_arena`). Items is
--   about the lists, Arena about the sharing, Merge about `cil_merge` and `cil_merge_one`,
--   Vector about `cil_bv_add`.
-- - Postdot: the binary search for a postdot symbol of an Earley set, `pim_nsy_p_find`.
--
-- Numbers: `int` and `unsigned int` have 32 bits. Identifiers and counts are naturals, and no
-- function computes past the range of `int` on them before memory is exhausted. A rank is
-- compared with bounds written out for 32 bits; the rewrite multiplies it by 4 and adds at most 3.
--
-- The AVL library (cpan/engine/read_only/marpa_avl.c, a copy of GNU libavl) is outside the model:
-- the tree of rules is a parameter with an empty tree and an insertion, and `AvlLaws` states what
-- libavl documents of them under the order `duplicate_rule_cmp`. The tree of the arena of counted
-- lists is such a parameter too, under `cil_cmp`. The trees of pairs that the census makes are a
-- parameter `PairTree`: a traversal of the pairs that were inserted, of which `PairTreeLaws` states
-- that it has these pairs, in ascending order under `sym_rule_cmp`.
--
-- Most loops are recursions over a list or over the rounds left. A binary search is given as many
-- rounds as there are entries, and the merge of two lists as many as the sum of their lengths. The
-- loops over the runs of a vector are given one round more than there are bits, since each run has
-- a bit, and the loop of `rhs_closure` as many pops as there are symbols, since each symbol is
-- pushed only when its bit is set.
--
-- Not modelled: the error string, which is always NULL, and the error flags; the pointers of a
-- symbol or a rule that only precomputation fills; zero-width assertions; reference counts and
-- the allocation of memory; of precomputation, the freeing of the tree of rules,
-- the nullification lists between the census and the rewrite, the sizes of the buffers of the
-- rewrite, and all that follows the rewrite (the states); of the recognizer, all but its stack of
-- alternatives and the postdot search; and the parse forest. The capacity of
-- stacks and buffers other than the stack of `rhs_closure` is not modelled either.
pub mod Prelude
pub mod Grammar
pub mod BitVector
pub mod Matrix
pub mod Alternatives
pub mod Cil
pub mod Postdot
pub mod Closure
pub mod Census
pub mod Loops
pub mod Rewrite
pub mod Precompute
