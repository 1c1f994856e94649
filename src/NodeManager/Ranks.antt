-- ===== src/NodeManager/Ranks.antt =====
-- The rank ids that even-http/ps/core/node_manager.cc hands out (`NextRankId`).
use rpc.Common.{
  ℕ, suc, ◌+◌, ◌<◌, ◌≡◌, ◌≢◌, inl, inr, String, none, some, string_eq, Option-cases, arith,
}
use rpc.Common.Dict.{Dict, get, put, subscript, get-put, subscript_present, subscript_absent}
use rpc.Common.Words.{ℤ, pos, negsuc, increment}
use rpc.Cluster.{NodeRole, scheduler, NodeInfo, default_node_info}
use native.Mathlib.Decide.{ℕ_discrete}

-- How many ranks a counter has handed out.
abbrev pub issued : ℤ → ℕ
issued (pos n) = n + 1
issued (negsuc n) = 0

-- The nodes of one role hold the ranks below `issued next`, each exactly one.
pub record RanksAreDense (role : NodeRole) (next : ℤ) (nodes : Dict String NodeInfo) : Type 0 where
  pub counts : increment next ≡ pos (issued next)
  pub below :
      (id : String) (x : NodeInfo)
      → get id nodes ≡ some x
      → x.node_role ≡ role
      → x.rank_id < issued next
  pub distinct :
      (a b : String) (x y : NodeInfo)
      → get a nodes ≡ some x
      → get b nodes ≡ some y
      → x.node_role ≡ role
      → y.node_role ≡ role
      → x.rank_id ≡ y.rank_id
      → a ≡ b
  pub taken :
      (r : ℕ)
      → r < issued next
      → (id : String) × (x : NodeInfo) × (get id nodes ≡ some x)
        × (x.node_role ≡ role)
        × (x.rank_id ≡ r)

module _ (role : NodeRole) (next : ℤ) (nodes : Dict String NodeInfo)
    (d : RanksAreDense role next nodes) where
  pub issued-increment : issued (increment next) ≡ suc (issued next)
  issued-increment = ground (arith, d.counts)

  module _ (id : String) (info : NodeInfo) (fresh : get id nodes ≡ none) where
    pub put-other : info.node_role ≢ role → RanksAreDense role next (put id info nodes)
    put-other other = record {
      counts = d.counts;
      below = λ a x g r.
          ground (arith, get-put id a info nodes, string_eq.equals_iff id a, d.below a x);
      distinct = λ a b x y g h r s e.
          ground (arith, get-put id a info nodes, get-put id b info nodes, d.distinct a b x y);
      taken = λ r l.
          let (a, x, g, o, e) = d.taken r l in
          (a, x, ground (arith, get-put id a info nodes, string_eq.equals_iff id a), o, e);
    }

    pub put-next :
        info.node_role ≡ role
        → info.rank_id ≡ issued next
        → RanksAreDense role (increment next) (put id info nodes)
    unfolding increment
    put-next own rank = record {
      counts = rw d.counts;
      below = λ a x g r. ground (arith, get-put id a info nodes, issued-increment, d.below a x);
      distinct = λ a b x y g h r s e. ground (
        arith,
        get-put id a info nodes,
        get-put id b info nodes,
        string_eq.equals_iff id a,
        string_eq.equals_iff id b,
        d.distinct a b x y,
        d.below a x,
        d.below b y,
      );
      taken = λ r l. elim (ℕ_discrete r (issued next)) [
        | yes here ↦ (
          id,
          info,
          ground (arith, get-put id id info nodes, string_eq.equals_iff id id),
          own,
          ground arith,
        )
        | no ne ↦
            let (a, x, g, o, e) = d.taken r (ground (arith, issued-increment)) in
            (a, x, ground (arith, get-put id a info nodes, string_eq.equals_iff id a), o, e)
      ];
    }

  pub subscript-default :
      (id : String)
      → scheduler ≢ role
      → RanksAreDense role next (subscript id default_node_info nodes)
  subscript-default id other = elim (Option-cases (get id nodes)) [
    | inl fresh ↦
        rw (subscript_absent id default_node_info nodes fresh)
          (put-other id default_node_info fresh other)
    | inr (x, known) ↦ rw (subscript_present id default_node_info x nodes known) d
  ]
