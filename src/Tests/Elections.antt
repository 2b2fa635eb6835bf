-- ===== src/Tests/Elections.antt =====
-- Election safety at a run that elects A.
use distributed_sys_lab.Prelude.{◌≡◌, refl, some, String, arith}
use distributed_sys_lab.Cluster.System.{routed, Step, ticks, receives, done, step}
use distributed_sys_lab.Cluster.Elections.{Steps-leader}
use distributed_sys_lab.Tests.Campaign.{
  platform, platform_reads, ids, peers, at_start, put-Others, a_stands, standing, request, b_votes,
  voted, reply, a_leads, elected, c_waits, later, member_a, member_b, member_c, a_stood,
  request_among, b_heard, reply_among, a_heard, c_waited, leads, still_leads, fresh,
}

pub stands_step : Step platform ids at_start standing
stands_step = ticks "A" member_a a_stood (put-Others at_start "A" a_stands)

pub votes_step : Step platform ids standing voted
votes_step =
    receives "B" (some request) member_b (routed "A" request member_a request_among refl) b_heard
      (put-Others standing "B" b_votes)

pub leads_step : Step platform ids voted elected
leads_step =
    receives "A" (some reply) member_a (routed "B" reply member_b reply_among refl) a_heard
      (put-Others voted "A" a_leads)

waits_step : Step platform ids elected later
waits_step = ticks "C" member_c c_waited (put-Others elected "C" c_waits)

Steps-leader_example : ◌≡◌ {A = String} "A" "A"
Steps-leader_example =
    Steps-leader platform platform_reads ids (omega arith) at_start elected later peers (λ i. 0) "A"
      "A" fresh (step stands_step (step votes_step (step leads_step (done elected))))
      (step waits_step (done later)) member_a member_a leads still_leads refl
