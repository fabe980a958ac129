-- ===== src/LockService/ServerTests.antt =====
-- A server that grants a lock once, and dies with the request that takes another one.
use distributed_systems_engi.Base.{string_eq, ◌≡◌, refl, true, false, List, [], ◌∷◌, lookup, insert}
use distributed_systems_engi.LockService.{start_server, lock, unlock}
use distributed_systems_engi.LockService.Server.{
  asks_lock, asks_unlock, Server, Event, accepts, accept_fails, starts_dying, handle, kill, step,
  run,
}

abbrev idle : Server
idle = record { dead = false; dying = false; listening = true; ls = start_server "b" true }

abbrev events : List Event
events =
    accepts (asks_lock "a")
    ∷ accepts (asks_unlock "b")
    ∷ accepts (asks_lock "a")
    ∷ starts_dying
    ∷ accepts (asks_lock "c")
    ∷ accept_fails
    ∷ accepts (asks_lock "d")
    ∷ []

dies : run events idle ≡ (
  record {
    dead = true;
    dying = true;
    listening = false;
    ls = record { am_primary = true; backup = "b"; locks = ("a", true) ∷ ("c", true) ∷ [] };
  },
  (asks_lock "a", true) ∷ (asks_unlock "b", false) ∷ (asks_lock "a", false) ∷ [],
)
unfolding run step handle lock unlock kill lookup insert
dies = refl
