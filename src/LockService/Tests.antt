-- ===== src/LockService/Tests.antt =====
-- A client takes a lock, gives it back, and another asks for it.
use distributed_systems_engi.Base.{◌≡◌, refl, true, false, [], ◌∷◌, lookup, insert}
use distributed_systems_engi.LockService.{
  start_server, clerk_lock, lock, unlock, run, answered, unsent, unlocks, locks,
}

refused :
    (clerk_lock answered "a"
      (run (locks answered "a" ∷ locks unsent "b" ∷ unlocks "a" ∷ []) (start_server "s" true))).1
    ≡ false
unfolding clerk_lock run lock unlock lookup insert
refused = refl
