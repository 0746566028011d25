-- ===== src/Http/Failure.antt =====
-- crates/sismatic-http-api/src/handlers/error.rs: why a request fails. The variant of the settings'
-- routes, which are not modelled, is left out.
use sismatic.Common.{String}
use sismatic.Api.{Rejection}
use sismatic.Store.Policy.{SubmitError}
use sismatic.Fleet.Live.{InventoryRefusal}

pub data ApiFailure : Type 0 where
  not_found bad_request : String → ApiFailure
  store : String → ApiFailure
  submit : SubmitError → ApiFailure
  rejected : Rejection → String → ApiFailure
  inventory : InventoryRefusal → ApiFailure
