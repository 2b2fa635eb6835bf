-- ===== src/Engine/Heartbeats.antt =====
-- The heartbeat timer of mini-raft/raft-rust/src/main.rs.
use mathlib.Core.Path.{subst}
use mathlib.Core.List.{Memᴰ, append_assoc}
use mathlib.Core.List.Memᴰ
use distributed_sys_lab.Prelude.{
  ℕ, zero, suc, ◌+◌, ◌-◌, ◌<◌, ◌≡◌, ◌∙◌, refl, sym, ap, true, false, none, some, String, Option,
  List, [], ◌∷◌, ◌++◌, Dict, arith, ok, leb, add_u64_of_lt,
}
use distributed_sys_lab.Protocol
use distributed_sys_lab.Protocol.{Message, NodeState, leader, AppendEntriesArgs, SideEffect}
use distributed_sys_lab.Node.{RaftNode, build_append_entries_args}
use distributed_sys_lab.Node.Timeouts.{
  next_index_of, send_effects, heartbeats, heartbeat_at, handle_heartbeat_timeout,
}
use distributed_sys_lab.Engine.{
  Platform, Process, heartbeat_interval, send, execute_effect, execute_effects,
}
use distributed_sys_lab.Engine.Effects.{envelope, execute_effect-node, execute_effects-node}
use distributed_sys_lab.Engine.Delivery.{execute_effect-sent, execute_effects-sent}
use distributed_sys_lab.Engine.Ticks.{
  with_election_ticks, with_heartbeat_ticks, leader_tick, tick_at, tick, ticks,
}

Memᴰ-send_effects :
    (x : SideEffect) (peer : String) (args : Option AppendEntriesArgs) (fx : List SideEffect)
    → Memᴰ x fx
    → Memᴰ x (send_effects peer args fx)
unfolding send_effects
Memᴰ-send_effects x peer none fx m = m
Memᴰ-send_effects x peer (some args) fx m = Memᴰ.append_left _ m

Memᴰ-heartbeats :
    (x : SideEffect) (n : RaftNode) (next : Dict) (peers : List String) (fx : List SideEffect)
    → Memᴰ x fx
    → Memᴰ x (heartbeats n next peers fx)
unfolding heartbeats
Memᴰ-heartbeats x n next [] fx m = m
Memᴰ-heartbeats x n next (peer ∷ peers) fx m =
    Memᴰ-heartbeats x n next peers _ (Memᴰ-send_effects x peer _ fx m)

-- Each peer gets its entries.
heartbeats-peer :
    (n : RaftNode) (next : Dict) (peers : List String) (fx : List SideEffect) (peer : String)
    (args : AppendEntriesArgs)
    → Memᴰ peer peers
    → build_append_entries_args n (next_index_of next peer) ≡ some args
    → Memᴰ (Protocol.send_append_entries peer args) (heartbeats n next peers fx)
unfolding heartbeats send_effects
heartbeats-peer n next [] fx peer args m h = elim m [ ]
heartbeats-peer n next (other ∷ peers) fx peer args (Memᴰ.head e) h =
    let sent : build_append_entries_args n (next_index_of next other) ≡ some args =
      subst (λ k. build_append_entries_args n (next_index_of next k) ≡ some args) e h in
    Memᴰ-heartbeats (Protocol.send_append_entries peer args) n next peers _
      (rw sent (Memᴰ.append_right _ (Memᴰ.head (ap (λ k. Protocol.send_append_entries k args) e))))
heartbeats-peer n next (other ∷ peers) fx peer args (Memᴰ.tail m) h =
    heartbeats-peer n next peers _ peer args m h

module _ (p : Platform) where
  -- The message is among those that were sent after `before`.
  pub record SentSince (before after : List (Message p.Value)) (m : Message p.Value) : Type 0 where
    pub more : List (Message p.Value)
    pub sent : after ≡ before ++ more
    pub among : Memᴰ m more

  abbrev entries_to : RaftNode → String → AppendEntriesArgs → Message p.Value
  entries_to n peer args = envelope p n.id "AppendEntries" (p.append_entries.to_value args) peer

  -- Entries among the effects are among the messages.
  execute_effects-entries :
      (fx : List SideEffect) (w : Process p) (peer : String) (args : AppendEntriesArgs)
      → Memᴰ (Protocol.send_append_entries peer args) fx
      → SentSince w.sent (execute_effects p fx w).sent (entries_to w.node peer args)
  unfolding execute_effects execute_effect send
  execute_effects-entries [] w peer args m = elim m [ ]
  execute_effects-entries (e ∷ fx) w peer args (Memᴰ.head same) =
      let m = entries_to w.node peer args in
      let (more, sent, _) =
        execute_effects-sent p fx (execute_effect p (Protocol.send_append_entries peer args) w) in
      subst
        (λ (k : SideEffect). SentSince w.sent (execute_effects p fx (execute_effect p k w)).sent m)
        same
        (record {
          more = m ∷ more;
          sent = sent ∙ append_assoc w.sent (m ∷ []) more;
          among = Memᴰ.head refl;
        })
  execute_effects-entries (e ∷ fx) w peer args (Memᴰ.tail among) =
      let w1 = execute_effect p e w in
      let (first, at, _) = execute_effect-sent p e w in
      let later = execute_effects-entries fx w1 peer args among in
      record {
        more = first ++ later.more;
        sent = later.sent ∙ ap (λ xs. xs ++ later.more) at ∙ append_assoc w.sent first later.more;
        among = Memᴰ.append_right first (
            subst (λ (n : RaftNode). Memᴰ (entries_to n peer args) later.more)
              (execute_effect-node p e w) later.among);
      }

  -- A process whose leader has just sent its heartbeats.
  record Beats (w : Process p) (peer : String) (args : AppendEntriesArgs) (w' : Process p)
      : Type 0 where
    pub node : w'.node ≡ w.node
    pub sent : SentSince w.sent w'.sent (entries_to w.node peer args)

  tick-leader :
      (w : Process p) (next match : Dict)
      → w.node.state ≡ leader next match
      → tick p w ≡ leader_tick p w
  unfolding tick tick_at
  tick-leader w next match leads = rw leads refl

  tick-waits :
      (w : Process p) (next match : Dict)
      → w.node.state ≡ leader next match
      → w.engine_state.heartbeat_tick_count + 1 < heartbeat_interval
      → tick p w
        ≡ ok (
            with_election_ticks p 0
              (with_heartbeat_ticks p (w.engine_state.heartbeat_tick_count + 1) w))
  unfolding leader_tick
  tick-waits w next match leads early =
      let count = w.engine_state.heartbeat_tick_count in
      let below : leb heartbeat_interval (count + 1) ≡ false = ground arith in
      tick-leader w next match leads ∙ (rw (add_u64_of_lt count 1 (omega arith), below) refl)

  timeout-entries :
      (n : RaftNode) (next match : Dict) (peer : String) (args : AppendEntriesArgs)
      → n.state ≡ leader next match
      → Memᴰ peer n.peers
      → build_append_entries_args n (next_index_of next peer) ≡ some args
      → Memᴰ (Protocol.send_append_entries peer args) (handle_heartbeat_timeout n)
  unfolding handle_heartbeat_timeout heartbeat_at
  timeout-entries n next match peer args leads among h =
      subst (λ s. Memᴰ (Protocol.send_append_entries peer args) (heartbeat_at s n)) (sym leads)
        (Memᴰ.append_left _ (heartbeats-peer n next n.peers _ peer args among h))

  -- The tick at the interval sends the heartbeats.
  tick-Beats :
      (w : Process p) (next match : Dict) (peer : String) (args : AppendEntriesArgs)
      → w.node.state ≡ leader next match
      → w.engine_state.heartbeat_tick_count + 1 ≡ heartbeat_interval
      → Memᴰ peer w.node.peers
      → build_append_entries_args w.node (next_index_of next peer) ≡ some args
      → (w' : Process p) × (tick p w ≡ ok w') × Beats w peer args w'
  unfolding leader_tick
  tick-Beats w next match peer args leads now among h =
      let count = w.engine_state.heartbeat_tick_count in
      let at : leb heartbeat_interval (count + 1) ≡ true = ground arith in
      let fx = handle_heartbeat_timeout w.node in
      let w1 = with_heartbeat_ticks p (count + 1) w in
      (
        with_election_ticks p 0 (execute_effects p fx w1),
        tick-leader w next match leads ∙ (rw (add_u64_of_lt count 1 (omega arith), at) refl),
        record {
          node = execute_effects-node p fx w1;
          sent =
              execute_effects-entries fx w1 peer args
                (timeout-entries w.node next match peer args leads among h);
        },
      )

  ticks-waiting :
      (k : ℕ) (w : Process p) (next match : Dict) (peer : String) (args : AppendEntriesArgs)
      → w.node.state ≡ leader next match
      → w.engine_state.heartbeat_tick_count + suc k ≡ heartbeat_interval
      → Memᴰ peer w.node.peers
      → build_append_entries_args w.node (next_index_of next peer) ≡ some args
      → (w' : Process p) × (ticks p (suc k) w ≡ ok w') × Beats w peer args w'
  unfolding ticks
  ticks-waiting zero w next match peer args leads left among h =
      let (w', e, b) = tick-Beats w next match peer args leads (omega (arith, left)) among h in
      (w', rw e refl, b)
  ticks-waiting (suc k) w next match peer args leads left among h =
      let count = w.engine_state.heartbeat_tick_count in
      let w1 = with_election_ticks p 0 (with_heartbeat_ticks p (count + 1) w) in
      let (w', e, b) =
        ticks-waiting k w1 next match peer args leads (omega (arith, left)) among h in
      (
        w',
        rw (tick-waits w next match leads (omega (arith, left))) e,
        record { node = b.node; sent = b.sent },
      )

  -- A leader hears nothing for the ticks by which its heartbeat count is below the interval. Its node stays
  -- as it is, and in these ticks it sends to a peer the entries that are built for the next index of that
  -- peer.
  pub ticks-Beats :
      (w : Process p) (next match : Dict) (peer : String) (args : AppendEntriesArgs)
      → w.node.state ≡ leader next match
      → w.engine_state.heartbeat_tick_count < heartbeat_interval
      → Memᴰ peer w.node.peers
      → build_append_entries_args w.node (next_index_of next peer) ≡ some args
      → (w' : Process p) × (ticks p (heartbeat_interval - w.engine_state.heartbeat_tick_count) w
          ≡ ok w')
        × (w'.node ≡ w.node)
        × SentSince w.sent w'.sent
            (envelope p w.node.id "AppendEntries" (p.append_entries.to_value args) peer)
  ticks-Beats w next match peer args leads early among h =
      let k = heartbeat_interval - w.engine_state.heartbeat_tick_count - 1 in
      let e : suc k ≡ heartbeat_interval - w.engine_state.heartbeat_tick_count =
        omega (arith, early) in
      let (w', done, b) =
        ticks-waiting k w next match peer args leads (omega (arith, early)) among h in
      (w', subst (λ left. ticks p left w ≡ ok w') e done, b.node, b.sent)
