-- ===== src/Tests/Devices.antt =====
-- The theorems on refused fields at work.
use sismatic.Common.{◌≡◌, none, some, [], ◌∷◌, arith}
use sismatic.Common.Dict
use sismatic.Devices.AutoDisabled.{AutoDisabled, veto, refused, answered}
use sismatic.Devices.Vetoes.{refused_at, veto-refused_at-answered}

-- Refused once, some time ago.
abbrev once : AutoDisabled
once = (refused 1 "NAME" 2 none Dict.empty).1

veto-refused_at-answered_example :
    veto 12 "NAME" (refused_at (5 ∷ 7 ∷ []) "NAME" 2 (some 10) (answered "NAME" once).1)
    ≡ some (some 5)
veto-refused_at-answered_example =
    veto-refused_at-answered 12 5 (7 ∷ []) "NAME" 2 (some 10) once (ground arith)
