-- ===== src/Cluster/History/Messages.antt =====
-- What is remembered of the elections and what the messages of a member say (mini-raft/raft-rust/src/main.rs
-- over node.rs).
use mathlib.Core.Path.{subst}
use mathlib.Core.List.{Memᴰ}
use mathlib.Core.List.Memᴰ
use distributed_sys_lab.Prelude.{
  ℕ, ◌≤◌, ◌≡◌, ◌∙◌, ◌⊎◌, inl, inr, sym, ap, some, String, List, arith, get_last?, All-Memᴰ,
}
use distributed_sys_lab.Protocol.{RequestVoteArgs, Message, LogEntry}
use distributed_sys_lab.Node.{RaftNode}
use distributed_sys_lab.Node.Election.{Role, role}
use distributed_sys_lab.Engine.{Platform}
use distributed_sys_lab.Cluster.Logs.{Holds}
use distributed_sys_lab.Cluster.History.{Bid, Reign, Past, Standing, Leading, Asked, Ruled}
use distributed_sys_lab.Cluster.Claims.{Causes, Truthful}
use distributed_sys_lab.Cluster.Says.{Says}

pub Asked-more :
    (bids bids' : List Bid) (args : RequestVoteArgs)
    → ((b : Bid) → Memᴰ b bids → Memᴰ b bids')
    → Asked bids args
    → Asked bids' args
Asked-more bids bids' args more a = record {
  bid = a.bid;
  among = more a.bid a.among;
  names = a.names;
  last = a.last;
  is_last = a.is_last;
  last_index = a.last_index;
  last_term = a.last_term;
}

module _ (p : Platform) where
  pub Ruled-more :
      (logs logs' : List (List LogEntry)) (reigns reigns' : List Reign) (m : Message p.Value)
      → ((l : List LogEntry) → Memᴰ l logs → Memᴰ l logs')
      → ((r : Reign) → Memᴰ r reigns → Memᴰ r reigns')
      → Ruled p logs reigns m
      → Ruled p logs' reigns' m
  Ruled-more logs logs' reigns reigns' m more more_reigns x =
      let k = x.carries in
      record {
        carries = record {
          args = k.args;
          written = k.written;
          log = k.log;
          among = more k.log k.among;
          slice = k.slice;
          bounded = k.bounded;
        };
        reign = x.reign;
        among = more_reigns x.reign x.among;
        of_term = x.of_term;
        continues = x.continues;
      }

  -- What a member sends in a turn, with what is remembered of it after the turn.
  module _ (k : Causes) (i : String) (n' : RaftNode) (before after : List (Message p.Value))
      (logs logs' : List (List LogEntry)) (past past' : Past) (says : Says p k n' before after)
      (m : Message p.Value) (among : Memᴰ m after) where
    old_or_sent : Memᴰ m before ⊎ Truthful p k n' m
    old_or_sent = elim (Memᴰ.append_cases before (subst (Memᴰ m) says.sent among)) [
      | inl old ↦ inl old
      | inr new ↦ inr (All-Memᴰ (Truthful p k n') says.more says.truthful new)
    ]

    pub sent-Asked :
        (args : RequestVoteArgs)
        → n'.id ≡ i
        → ((b : Bid) → Memᴰ b past.bids → Memᴰ b past'.bids)
        → ((votes : List String) → role n'.state ≡ Role.candidate votes → Standing past'.bids i n')
        → (Memᴰ m before → Asked past.bids args)
        → m.message_type ≡ "RequestVote"
        → p.request_vote.from_value m.payload ≡ some args
        → Asked past'.bids args
    sent-Asked args id more standing asked type read = elim old_or_sent [
      | inl old ↦ Asked-more past.bids past'.bids args more (asked old)
      | inr t ↦
          let r = t.requests args type read in
          let b = standing r.votes r.stands in
          record {
            bid = b.bid;
            among = b.among;
            names = record {
              candidate = b.names.candidate ∙ sym (t.asks args type read ∙ t.signed ∙ id);
              of_term = b.names.of_term ∙ sym r.term;
            };
            last = r.last;
            is_last = ap get_last? b.log ∙ r.is_last;
            last_index = r.last_index;
            last_term = r.last_term;
          }
    ]

    pub sent-Ruled :
        ((l : List LogEntry) → Memᴰ l logs → Memᴰ l logs')
        → ((r : Reign) → Memᴰ r past.reigns → Memᴰ r past'.reigns)
        → (role n'.state ≡ Role.leader → Leading past'.reigns i n')
        → Memᴰ n'.log logs'
        → ((k term : ℕ) → Holds n'.log k term → term ≤ n'.current_term)
        → (Memᴰ m before → Ruled p logs past.reigns m)
        → m.message_type ≡ "AppendEntries"
        → Ruled p logs' past'.reigns m
    sent-Ruled more more_reigns leading now bounded ruled type = elim old_or_sent [
      | inl old ↦ Ruled-more logs logs' past.reigns past'.reigns m more more_reigns (ruled old)
      | inr t ↦
          let q = t.quotes type in
          let r = leading q.offers.leads in
          record {
            carries = record {
              args = q.args;
              written = q.written;
              log = n'.log;
              among = now;
              slice = q.offers.slice;
              bounded = λ k term h. omega (arith, bounded k term h, q.offers.term);
            };
            reign = r.reign;
            among = r.among;
            of_term = r.names.of_term ∙ sym q.offers.term;
            continues = r.continues;
          }
    ]
