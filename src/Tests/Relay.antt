-- ===== src/Tests/Relay.antt =====
-- The relay's recovery at work.
use sismatic.Common.{◌≡◌, some, []}
use sismatic.Api.{started}
use sismatic.Outbox.Queries.{in_flight_rows}
use sismatic.Relay.Recovery.{recover}
use sismatic.Relay.Own.{Reach-OwnIds}
use sismatic.Relay.Recovered.{recover_lands}
use sismatic.Tests.Fixtures.{tally, left_gone, ticks}
use sismatic.Tests.Outbox.{left_gone-Reach}

recover_lands_example :
    in_flight_rows "right" (recover tally "right" (some started) ticks left_gone) ≡ []
recover_lands_example =
    recover_lands tally "right" (some started) ticks left_gone (Reach-OwnIds 3 left_gone-Reach)
