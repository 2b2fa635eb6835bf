-- ===== src/Cluster/History/Turns.antt =====
-- What a turn (mini-raft/raft-rust/src/main.rs) leaves of the memory of elections.
use mathlib.Core.Path.{subst}
use mathlib.Core.List.{Memᴰ}
use distributed_sys_lab.Prelude.{
  ℕ, ◌+◌, ◌<◌, ◌≤◌, ◌≡◌, ◌∙◌, inl, inr, refl, sym, ap, true, some, String, List, arith, length,
  contains, ◌<+◌,
}
use distributed_sys_lab.Protocol.{Message, RequestVoteArgs, LogEntry, AppendEntriesArgs}
use distributed_sys_lab.Node.{RaftNode, last_index_or_zero}
use distributed_sys_lab.Node.Election.{Role, role}
use distributed_sys_lab.Engine.{Platform}
use distributed_sys_lab.Cluster.Honesty.{Change-Follows}
use distributed_sys_lab.Cluster.System.{Cluster, each_process}
use distributed_sys_lab.Cluster.Support.{Backed-Grows}
use distributed_sys_lab.Cluster.Elections.{ReadsVotes, IsSound, Turn, Turn-IsSound}
use distributed_sys_lab.Cluster.Logs.{Holds, Settled, Kept}
use distributed_sys_lab.Cluster.Logs.Terms.{Change-Settled}
use distributed_sys_lab.Cluster.Logs.Runs.{Next}
use distributed_sys_lab.Cluster.History.Messages.{Asked-more, Ruled-more, sent-Asked, sent-Ruled}
use distributed_sys_lab.Cluster.History.{
  Asked, Ruled, Bid, Reign, Past, Names, Stems, Standing, Leading, Made, Reigned, Remembers,
}
use distributed_sys_lab.Cluster.History.Bases.{Stems-more, push-Stems}

module _ (p : Platform) (reads : ReadsVotes p)
    (reads_entries : (x : AppendEntriesArgs)
      → p.append_entries.from_value (p.append_entries.to_value x) ≡ some x)
    (ids : List String) (large : 1 < length ids) (c c' : Cluster p) (logs : List (List LogEntry))
    (past : Past) (s : IsSound p reads ids large c) (kept : Kept p ids c logs)
    (mem : Remembers p ids c logs past) (t : Turn p reads ids large c c')
    (next : Next p reads reads_entries ids large c c' t.actor logs) where
  abbrev pub logs_after : List (List LogEntry)
  logs_after = next.later.logs_now

  -- The actor's term does not fall.
  term_up : (j : String) → (c j).node.current_term ≤ (c' j).node.current_term
  term_up =
      each_process p ids (λ j w. (c j).node.current_term ≤ w.node.current_term) c c' t.actor
        t.others (Change-Follows p t.moves.change).term (λ j _. omega arith)

  pub Made-later : (b : Bid) → Made p ids c logs b → Made p ids c' logs_after b
  Made-later b m = record {
    member = m.member;
    past = omega (arith, m.past, term_up b.candidate);
    among = next.later.more b.log m.among;
    older = m.older;
  }

  pub Reigned-later :
      (bids : List Bid) (r : Reign)
      → ((b : Bid) → Memᴰ b past.bids → Memᴰ b bids)
      → Reigned p ids c past.bids r
      → Reigned p ids c' bids r
  Reigned-later bids r more x =
      let grows = (Turn-IsSound p reads ids large c c' t s).1 in
      record {
        among = more r.bid x.among;
        backed = Backed-Grows p ids c c' r.bid.candidate r.bid.term r.electors grows x.backed;
        majority = x.majority;
        settled =
            each_process p ids (λ j w. Settled (c j).node r.bid.term → Settled w.node r.bid.term) c
              c' t.actor t.others
              (Change-Settled p t.line (c t.actor).node (c' t.actor).node (c' t.actor).sent
                r.bid.term t.moves.change)
              (λ _ _ x. x) r.bid.candidate x.settled;
      }

  -- Every log's entries come from reigns, those of a proposal from the reign of its leader.
  Stems-later :
      (l : List LogEntry) (k term : ℕ)
      → Memᴰ l logs_after
      → Holds l k term
      → Stems past.reigns l k term
  Stems-later l k term among h = elim (next.new l among) [
    | inl old ↦ mem.stems l k term old h
    | inr new ↦
        let n = (c t.actor).node in
        let entry : LogEntry = record {
          term = n.current_term;
          index = last_index_or_zero n.log + 1;
          command = new.command;
        } in
        let at : l ≡ n.log <+ entry = new.now ∙ ap (λ (m : RaftNode). m.log) new.node in
        subst (λ xs. Stems past.reigns xs k term) (sym at)
          (push-Stems past.reigns t.actor n entry k term (mem.leading t.actor t.member new.leads)
            refl (λ k term. mem.stems n.log k term (kept.held t.actor t.member))
            (subst (λ xs. Holds xs k term) at h))
  ]

  -- The memory after the turn: more bids and reigns, and what they say of the actor.
  pub record Recalls (past' : Past) : Type 0 where
    pub more_bids : (b : Bid) → Memᴰ b past.bids → Memᴰ b past'.bids
    pub more_reigns : (r : Reign) → Memᴰ r past.reigns → Memᴰ r past'.reigns
    pub made : (b : Bid) → Memᴰ b past'.bids → Made p ids c' logs_after b
    pub one_bid :
        (b b' : Bid)
        → Memᴰ b past'.bids
        → Memᴰ b' past'.bids
        → Names b b'.candidate b'.term
        → b ≡ b'
    pub reigned : (r : Reign) → Memᴰ r past'.reigns → Reigned p ids c' past'.bids r
    pub one_reign :
        (r r' : Reign)
        → Memᴰ r past'.reigns
        → Memᴰ r' past'.reigns
        → r.bid.term ≡ r'.bid.term
        → r ≡ r'
    pub actor_standing :
        (votes : List String)
        → role (c' t.actor).node.state ≡ Role.candidate votes
        → Standing past'.bids t.actor (c' t.actor).node
    pub actor_leading :
        role (c' t.actor).node.state ≡ Role.leader → Leading past'.reigns t.actor (c' t.actor).node

  pub Recalls-Remembers : (past' : Past) → Recalls past' → Remembers p ids c' logs_after past'
  Recalls-Remembers past' x = record {
    made = x.made;
    one_bid = x.one_bid;
    reigned = x.reigned;
    one_reign = x.one_reign;
    standing = λ j votes member.
        each_process p ids
          (λ j w.
            contains ids j ≡ true
            → role w.node.state ≡ Role.candidate votes
            → Standing past'.bids j w.node)
          c c' t.actor t.others (λ _. x.actor_standing votes)
          (λ j _ member stands.
            let b = mem.standing j votes member stands in
            record { bid = b.bid; among = x.more_bids b.bid b.among; names = b.names; log = b.log })
          j member;
    leading =
        each_process p ids
          (λ j w.
            contains ids j ≡ true → role w.node.state ≡ Role.leader → Leading past'.reigns j w.node)
          c c' t.actor t.others (λ _. x.actor_leading)
          (λ j _ member leads.
            let r = mem.leading j member leads in
            record {
              reign = r.reign;
              among = x.more_reigns r.reign r.among;
              names = r.names;
              continues = r.continues;
            });
    stems = λ l k term among h.
        Stems-more past.reigns past'.reigns l k term x.more_reigns (Stems-later l k term among h);
    requests =
        each_process p ids
          (λ j w.
            contains ids j ≡ true
            → (m : Message p.Value) → Memᴰ m w.sent
            → (args : RequestVoteArgs) → m.message_type ≡ "RequestVote"
            → p.request_vote.from_value m.payload ≡ some args
            → Asked past'.bids args)
          c c' t.actor t.others
          (λ member m among args type read.
            sent-Asked p _ t.actor (c' t.actor).node (c t.actor).sent (c' t.actor).sent logs
              logs_after past past' t.moves.says m among args
              (next.later.sound.honest t.actor member).id x.more_bids x.actor_standing
              (λ old. mem.requests t.actor member m old args type read) type read)
          (λ j _ member m among args type read.
            Asked-more past.bids past'.bids args x.more_bids
              (mem.requests j member m among args type read));
    rules =
        each_process p ids
          (λ j w.
            contains ids j ≡ true
            → (m : Message p.Value) → Memᴰ m w.sent
            → m.message_type ≡ "AppendEntries"
            → Ruled p logs_after past'.reigns m)
          c c' t.actor t.others
          (λ member m among type.
            sent-Ruled p _ t.actor (c' t.actor).node (c t.actor).sent (c' t.actor).sent logs
              logs_after past past' t.moves.says m among next.later.more x.more_reigns
              x.actor_leading (next.later.kept.held t.actor member)
              (next.later.kept.bounded t.actor member) (λ old. mem.rules t.actor member m old type)
              type)
          (λ j _ member m among type.
            Ruled-more p logs logs_after past.reigns past'.reigns m next.later.more x.more_reigns
              (mem.rules j member m among type));
  }
