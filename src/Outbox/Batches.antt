-- ===== src/Outbox/Batches.antt =====
-- What each operation leaves of the table of batches.
use sismatic.Common.{ℕ, String, ◌≡◌, refl, ◌∙◌, List, [], ◌∷◌, arith, inl, inr, Option-cases}
use sismatic.Common.Dict
use sismatic.Common.Dict.{Dict, get-insert, get-remove, get-empty}
use sismatic.Api.{Timestamp}
use sismatic.Store.Policy.{Submission}
use sismatic.Outbox.State.{Outbox, set_log, set_record}
use sismatic.Outbox.Submit.{Row, enqueue, enqueue_all, expect}
use sismatic.Outbox.Cancel.{cancel_if_pending, cancel_pending, cancel_member, cancel_members}
use sismatic.Outbox.Drain.{
  BatchStep, wait, alone, release, fail, claim_front, claim_head, fail_front, fail_head,
  claim_heads, fail_heads, act,
}

-- What most operations do to the batches.
pub claim_head_batches :
    (device : String) (at : Timestamp) (o : Outbox) → (claim_head device at o).1.batches ≡ o.batches
unfolding claim_head claim_front set_log set_record
claim_head_batches device at o = ground arith

pub fail_head_batches :
    (device : String) (at : Timestamp) (o : Outbox) → (fail_head device at o).batches ≡ o.batches
unfolding fail_head fail_front set_log set_record
fail_head_batches device at o = ground arith

pub claim_heads_batches :
    (members : List String) (at : Timestamp) (o : Outbox)
    → (claim_heads members at o).1.batches ≡ o.batches
unfolding claim_heads
claim_heads_batches [] at o = refl
claim_heads_batches (member ∷ members) at o = ground (
  arith,
  claim_head_batches member at o,
  claim_heads_batches members at (claim_head member at o).1,
)

pub fail_heads_batches :
    (members : List String) (at : Timestamp) (o : Outbox)
    → (fail_heads members at o).batches ≡ o.batches
unfolding fail_heads
fail_heads_batches [] at o = refl
fail_heads_batches (member ∷ members) at o =
    fail_heads_batches members at (fail_head member at o) ∙ fail_head_batches member at o

pub act_batches :
    (step : BatchStep) (batch_id device : String) (at : Timestamp) (o : Outbox)
    → (act step batch_id device at o).1.batches ≡ o.batches
unfolding act
act_batches wait batch_id device at o = refl
act_batches alone batch_id device at o = claim_head_batches device at o
act_batches (release members) batch_id device at o = claim_heads_batches members at o
act_batches (fail members) batch_id device at o = fail_heads_batches members at o

pub enqueue_all_batches :
    (s : Submission) (all : List Row) (o : Outbox) → (enqueue_all s all o).batches ≡ o.batches
unfolding enqueue_all enqueue set_log set_record
enqueue_all_batches s [] o = refl
enqueue_all_batches s (row ∷ rest) o = enqueue_all_batches s rest (enqueue s row o)

pub expect_batches : (s : Submission) (o : Outbox) → (expect s o).batches ≡ o.batches
unfolding expect
expect_batches s o = ground arith

pub cancel_pending_batches :
    (reason : String) (ids : List String) (s : Outbox × ℕ)
    → (cancel_pending reason ids s).0.batches ≡ s.0.batches
unfolding cancel_pending
cancel_pending_batches reason [] s = refl
cancel_pending_batches reason (id ∷ ids) s =
    cancel_pending_batches reason ids (cancel_if_pending reason id s)
    ∙ unfold cancel_if_pending set_record in ground arith

pub cancel_member_batches :
    (batch reason member : String) (s : Outbox × ℕ)
    → (cancel_member batch reason member s).0.batches ≡ s.0.batches
unfolding cancel_member set_log
cancel_member_batches batch reason member (o, n) = elim (Option-cases (Dict.get member o.logs)) [
  | inl e ↦ rw (e, cancel_member)
  | inr (log, e) ↦ rw (e, cancel_member) (cancel_pending_batches reason _ _)
]

pub cancel_members_batches :
    (batch reason : String) (members : List String) (s : Outbox × ℕ)
    → (cancel_members batch reason members s).0.batches ≡ s.0.batches
unfolding cancel_members
cancel_members_batches batch reason [] s = refl
cancel_members_batches batch reason (member ∷ members) s =
    cancel_members_batches batch reason members (cancel_member batch reason member s)
    ∙ cancel_member_batches batch reason member s
