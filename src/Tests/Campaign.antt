-- ===== src/Tests/Campaign.antt =====
-- Three processes (mini-raft/raft-rust/src/main.rs), of which A stands, gets the vote of B and leads.
use mathlib.Core.List.{Memᴰ}
use distributed_sys_lab.Prelude.{
  ◌≡◌, refl, true, some, inl, inr, String, List, [], ◌∷◌, ok, contains, str_eq, eq_iff, Bool-cases,
  if◌then◌else◌, length, ◌+◌,
}
use distributed_sys_lab.Protocol.{Message}
use distributed_sys_lab.Node.Election.{Role, role}
use distributed_sys_lab.Engine.{Platform, Process, start}
use distributed_sys_lab.Engine.Dispatch.{handle_line}
use distributed_sys_lab.Engine.Ticks.{tick}
use distributed_sys_lab.Cluster.System.{Cluster, Others, Started}
use distributed_sys_lab.Cluster.Elections.{ReadsVotes}
use distributed_sys_lab.Tests.Program.{engine}
use distributed_sys_lab.Tests.Wire.{Payload, wire}
use distributed_sys_lab.Tests.Data.{from_ok}

-- Each limit is one tick.
abbrev pub platform : Platform
platform = wire (λ g. (1, g))

pub platform_reads : ReadsVotes platform
platform_reads = record { request = λ x. refl; reply = λ x. refl }

abbrev pub ids : List String
ids = "A" ∷ "B" ∷ "C" ∷ []

abbrev pub peers : String → List String
peers i =
    if str_eq i "A" then "B" ∷ "C" ∷ [] else if str_eq i "B" then "A" ∷ "C" ∷ [] else "A" ∷ "B" ∷ []

abbrev pub at_start : Cluster platform
at_start i = start platform i (peers i) 0

-- The cluster after a turn of one member.
abbrev pub put : Cluster platform → String → Process platform → Cluster platform
put c i w j = if str_eq j i then w else c j

pub put-Others :
    (c : Cluster platform) (i : String) (w : Process platform) → Others platform ids c (put c i w) i
put-Others c i w j differ = elim (Bool-cases (str_eq j i)) [
  | inl same ↦ absurd (differ ((eq_iff j i).0 same))
  | inr other ↦ rw other refl
]

-- A stands, B is asked, A hears of its vote and leads.
abbrev pub a_stands : Process platform
a_stands = from_ok (at_start "A") (tick platform (at_start "A"))

abbrev pub standing : Cluster platform
standing = put at_start "A" a_stands

abbrev pub request : Message platform.Value
request = record {
  from = "A";
  to = "B";
  message_type = "RequestVote";
  payload =
      Payload.request_vote
        (record { term = 1; candidate_id = "A"; last_log_index = 0; last_log_term = 0 });
}

abbrev pub b_votes : Process platform
b_votes = from_ok (standing "B") (handle_line platform (some request) (standing "B"))

abbrev pub voted : Cluster platform
voted = put standing "B" b_votes

abbrev pub reply : Message platform.Value
reply = record {
  from = "B";
  to = "A";
  message_type = "VoteReply";
  payload = Payload.vote_reply (record { term = 1; vote_granted = true });
}

abbrev pub a_leads : Process platform
a_leads = from_ok a_stands (handle_line platform (some reply) a_stands)

abbrev pub elected : Cluster platform
elected = put voted "A" a_leads

abbrev pub c_waits : Process platform
c_waits = from_ok (at_start "C") (tick platform (at_start "C"))

abbrev pub later : Cluster platform
later = put elected "C" c_waits

pub member_a : contains ids "A" ≡ true
unfolding contains
member_a = refl

pub member_b : contains ids "B" ≡ true
unfolding contains
member_b = refl

pub member_c : contains ids "C" ≡ true
unfolding contains
member_c = refl

pub a_stood : tick platform (at_start "A") ≡ ok a_stands
unfolding engine
a_stood = refl

pub request_among : Memᴰ request (standing "A").sent
unfolding engine
request_among = Memᴰ.head refl

pub b_heard : handle_line platform (some request) (standing "B") ≡ ok b_votes
unfolding engine
b_heard = refl

pub reply_among : Memᴰ reply (voted "B").sent
unfolding engine
reply_among = Memᴰ.head refl

pub a_heard : handle_line platform (some reply) (voted "A") ≡ ok a_leads
unfolding engine
a_heard = refl

pub c_waited : tick platform (elected "C") ≡ ok c_waits
unfolding engine
c_waited = refl

pub leads : role (elected "A").node.state ≡ Role.leader
unfolding engine
leads = refl

pub still_leads : role (later "A").node.state ≡ Role.leader
unfolding engine
still_leads = refl

pub fresh : Started platform ids at_start peers (λ i. 0)
fresh = record { others = size; fresh = λ i member. refl }
  where
    size : (i : String) → contains ids i ≡ true → length (peers i) + 1 ≡ length ids
    size i member = elim (Bool-cases (str_eq i "A")) [
      | inl a ↦ rw a refl
      | inr not_a ↦ elim (Bool-cases (str_eq i "B")) [
        | inl b ↦ rw (not_a, b) refl
        | inr c ↦ rw (not_a, c) refl
      ]
    ]
