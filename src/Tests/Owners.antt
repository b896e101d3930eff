-- ===== src/Tests/Owners.antt =====
-- Native handles on concrete scripts: src/memory.cc, src/endpoint.cc.
use ucxpp.Base.{◌+◌, ◌≡◌, refl, List, [], ◌∷◌, inr, arith}
use ucxpp.Errors.{ucs_ok, ucs_err, check_ucs_status}
use ucxpp.Ucx.{count_if, is_undefined}
use ucxpp.Raii.{Op, create, move_from, destroy, run, empty, owners, created}
use ucxpp.Address.Ownership.{
  GetAddress, releases_address, local_address_owner, local_address-conserved,
}
use ucxpp.Memory.{register_mem, allocate_mem}
use ucxpp.Memory.LocalOwner.{
  LocalMake, registers, allocates, unmaps, local_memory_owner, local_memory-conserved,
}
use ucxpp.Endpoint.{close, endpoint_destroy}
use ucxpp.Endpoint.Closing.{is_close, close-destroy}
use ucxpp.Tests.{ucx, ctx, worker, ep}

abbrev locals : List (Op LocalMake)
locals =
    create (registers ctx 64 8 (ucs_ok, 20))
    ∷ create (allocates ctx 8 (ucs_ok, 21) (ucs_ok, 64))
    ∷ move_from 0
    ∷ destroy 0
    ∷ destroy 1
    ∷ []

local_memory-conserved_example :
    (count_if (unmaps 20) (run local_memory_owner empty locals).events
        + owners local_memory_owner 20 (run local_memory_owner empty locals).live
      ≡ 1)
    × (count_if is_undefined (run local_memory_owner empty locals).events ≡ 0)
unfolding register_mem allocate_mem check_ucs_status
local_memory-conserved_example = local_memory-conserved locals 20 (ground arith)

abbrev addresses : List (Op GetAddress)
addresses = create (worker, ucs_ok, 16, 3) ∷ move_from 0 ∷ destroy 1 ∷ destroy 0 ∷ []

local_address-conserved_example :
    (count_if (releases_address 16) (run local_address_owner empty addresses).events
        + owners local_address_owner 16 (run local_address_owner empty addresses).live
      ≡ created local_address_owner 16 addresses)
    × (count_if is_undefined (run local_address_owner empty addresses).events ≡ 0)
local_address-conserved_example = local_address-conserved addresses 16 (ground arith)

close-destroy_example :
    count_if is_close (close ucx 40 ep 9 17 ((17, ucs_err 3) ∷ [])).0.events
      + count_if is_close (endpoint_destroy 0 (close ucx 40 ep 9 17 ((17, ucs_err 3) ∷ [])).1)
    ≡ 1
close-destroy_example =
    close-destroy ucx 40 9 17 ep ((17, ucs_err 3) ∷ []) 0 (ground arith) (inr (refl, refl))
