-- ===== src/Sync/Health.antt =====
-- crates/sismatic-sync/src/driver.rs: what one polling loop believes of its device and field, and
-- what it reports of each poll.
use sismatic.Common.{◌≡◌, refl, Option, none, some, List, [], ◌∷◌}

pub data Health : Type 0 where
  up down : Health

pub data Contact : Type 0 where
  reached refused failed gated vetoed : Contact

pub data Report : Type 0 where
  silent onset ongoing recovery refusal : Report

unfoldable pub step : Health → Contact → Health × Report
step up Contact.reached = (up, silent)
step up Contact.failed = (down, onset)
step up Contact.gated = (down, ongoing)
step down Contact.reached = (up, recovery)
step down Contact.failed = (down, ongoing)
step down Contact.gated = (down, ongoing)
step health Contact.refused = (health, refusal)
step health Contact.vetoed = (health, silent)

-- The polls of a loop, one after another: the belief they leave, and the reports.
unfoldable pub polled : Health → List Contact → Health × List Report
polled health [] = (health, [])
polled health (contact ∷ later) =
    let (next, report) = step health contact in
    let rest = polled next later in (rest.0, report ∷ rest.1)

-- What a contact says of the device by itself.
abbrev pub says : Contact → Option Health
says Contact.reached = some up
says Contact.failed = some down
says Contact.gated = some down
says Contact.refused = none
says Contact.vetoed = none

-- What the last contact that says anything says.
abbrev pub last_word : Health → List Contact → Health
last_word before [] = before
last_word before (contact ∷ later) =
    last_word (elim (says contact) [ none ↦ before | some h ↦ h ]) later

-- The health that the reports tell of: an onset or a failure that goes on is an outage, a recovery
-- ends it, and the others leave it.
abbrev pub told : Health → List Report → Health
told before [] = before
told before (onset ∷ later) = told down later
told before (ongoing ∷ later) = told down later
told before (recovery ∷ later) = told up later
told before (silent ∷ later) = told before later
told before (refusal ∷ later) = told before later

-- The belief after any polls is what the last poll that reached the device, failed or was gated
-- says, or the belief before them where there is none; and whoever follows the reports alone
-- arrives at the same belief.
pub polled_lem :
    (health : Health) (contacts : List Contact)
    → ((polled health contacts).0 ≡ last_word health contacts)
      × (told health (polled health contacts).1 ≡ (polled health contacts).0)
unfolding polled step
polled_lem health [] = (refl, refl)
polled_lem up (Contact.reached ∷ later) = polled_lem up later
polled_lem up (Contact.failed ∷ later) = polled_lem down later
polled_lem up (Contact.gated ∷ later) = polled_lem down later
polled_lem up (Contact.refused ∷ later) = polled_lem up later
polled_lem up (Contact.vetoed ∷ later) = polled_lem up later
polled_lem down (Contact.reached ∷ later) = polled_lem up later
polled_lem down (Contact.failed ∷ later) = polled_lem down later
polled_lem down (Contact.gated ∷ later) = polled_lem down later
polled_lem down (Contact.refused ∷ later) = polled_lem down later
polled_lem down (Contact.vetoed ∷ later) = polled_lem down later
