-- ===== src/Find/Query/States.antt =====
-- The life of one peer within a query.
use trin.Prelude.{ℕ, ◌≤◌, ◌≡◌, refl, ap, ◌∙◌, arith}
use trin.Find.Query.{QueryPeerState, not_contacted, waiting, unresponsive, failed, succeeded}

-- The moves that a peer's state may make in one operation.
pub data PeerStep : QueryPeerState → QueryPeerState → Type 0 where
  stays : (s : QueryPeerState) → PeerStep s s
  contacted : (t : ℕ) → PeerStep not_contacted (waiting t)
  timed_out : (t : ℕ) → PeerStep (waiting t) unresponsive
  fails : (t : ℕ) → PeerStep (waiting t) failed
  fails_late : PeerStep unresponsive failed
  succeeds : (t : ℕ) → PeerStep (waiting t) succeeded
  succeeds_late : PeerStep unresponsive succeeded

-- How far a peer has come.
abbrev pub stage : QueryPeerState → ℕ
stage not_contacted = 0
stage (waiting t) = 1
stage unresponsive = 2
stage failed = 3
stage succeeded = 3

pub stage-PeerStep : {s t : QueryPeerState} → PeerStep s t → stage s ≤ stage t
stage-PeerStep (stays s) = omega arith
stage-PeerStep (contacted t) = omega arith
stage-PeerStep (timed_out t) = omega arith
stage-PeerStep (fails t) = omega arith
stage-PeerStep fails_late = omega arith
stage-PeerStep (succeeds t) = omega arith
stage-PeerStep succeeds_late = omega arith

-- Any number of such moves.
pub data PeerSteps (s : QueryPeerState) : QueryPeerState → Type 0 where
  begin : PeerSteps s s
  then_step : {t u : QueryPeerState} → PeerSteps s t → PeerStep t u → PeerSteps s u

pub stage-PeerSteps : {s t : QueryPeerState} → PeerSteps s t → stage s ≤ stage t
stage-PeerSteps begin = omega arith
stage-PeerSteps (then_step p q) = omega (arith, stage-PeerSteps p, stage-PeerStep q)

PeerStep-final : {s t : QueryPeerState} → PeerStep s t → stage s ≡ 3 → t ≡ s
PeerStep-final (stays s) h = refl
PeerStep-final (contacted t) h = absurd (omega arith)
PeerStep-final (timed_out t) h = absurd (omega arith)
PeerStep-final (fails t) h = absurd (omega arith)
PeerStep-final fails_late h = absurd (omega arith)
PeerStep-final (succeeds t) h = absurd (omega arith)
PeerStep-final succeeds_late h = absurd (omega arith)

-- A peer that answered or failed stays so.
pub PeerSteps-final : {s t : QueryPeerState} → PeerSteps s t → stage s ≡ 3 → t ≡ s
PeerSteps-final begin h = refl
PeerSteps-final (then_step p q) h =
    let same = PeerSteps-final p h in PeerStep-final q (ap stage same ∙ h) ∙ same
