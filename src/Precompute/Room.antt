-- ===== src/Precompute/Room.antt =====
-- The pairs of the census and the recorded size of the rules.
use marpa_r.Prelude.{◌≤◌, ◌≡◌, List, length, arith}
use marpa_r.Grammar.{Env}
use marpa_r.Grammar.Settings.{marpa_g_new}
use marpa_r.Grammar.Call.{Call, run}
use marpa_r.Grammar.Invariant.{AvlLaws}
use marpa_r.Grammar.Reach.{run_new-IsWf}
use marpa_r.Census.Index.{index_rules}
use marpa_r.Census.Capacity.{index_rules-room}

-- On a new grammar after any list of the calls of the type Call, failed ones included, the loop
-- over the rules in the census makes no more pairs for the right sides than the recorded
-- external size (External_Size_of_G), for which their array has room, and one pair for each rule
-- for the left sides. The AVL library keeps its laws.
pub run_new-room :
    {T : Type 0} {env : Env T} (laws : AvlLaws env) (calls : List Call)
    → let c = (run env calls (marpa_g_new env)).contents in
      (length (index_rules (length c.xsys) c.xrls).rh_pairs ≤ c.external_size)
      × (length (index_rules (length c.xsys) c.xrls).lh_pairs ≡ length c.xrls)
run_new-room {env = env} laws calls =
    let c = (run env calls (marpa_g_new env)).contents in
    let room = index_rules-room (length c.xsys) c.xrls in
    (omega (arith, room.0, (run_new-IsWf laws calls).size), room.1)
