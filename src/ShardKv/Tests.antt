-- ===== src/ShardKv/Tests.antt =====
-- A client with two groups, and the theorems at concrete inputs.
use distributed_systems_engi.Base.{inr}
use distributed_systems_engi.ShardKv.{server_get, server_put_append, put_append, Err}
use distributed_systems_engi.ShardKv.Owner.{server_get-unserved}
use distributed_systems_engi.Base.{
  ◌≡◌, refl, String, Option, none, some, List, [], ◌∷◌, pos, int_eq, string_eq, ◌==◌, codes, lookup,
  if◌then◌else◌,
}
use distributed_systems_engi.ShardMaster.{Config, no_owners}
use distributed_systems_engi.ShardKv.{
  ok, GetReply, make_clerk, key2shard, servers_for, Pass, try_servers, ask, get_verdict, get,
}

-- Group 7 has shard 7, in which the key "a" is.
abbrev config : Config
config = record {
  num = 1;
  shards = pos 3 ∷ pos 3 ∷ pos 3 ∷ pos 3 ∷ pos 3 ∷ pos 3 ∷ pos 3 ∷ pos 7 ∷ pos 7 ∷ pos 7 ∷ [];
  groups = (pos 3, "x" ∷ []) ∷ (pos 7, "y" ∷ "z" ∷ []) ∷ [];
}

abbrev answer : GetReply
answer = record { err = ok; value = "v" }

-- Server y is down.
abbrev reply : String → Option GetReply
reply srv = if srv == "z" then some answer else none

abbrev passes : List (Pass GetReply)
passes =
    record { reply = reply; next_config = config }
    ∷ record { reply = reply; next_config = config }
    ∷ []

-- The first pass is with the configuration that has no groups.
gets : get (codes "a") passes make_clerk ≡ some (record { config = config }, "v")
unfolding get ask get_verdict servers_for key2shard try_servers lookup no_owners
gets = refl

abbrev unserved_gets : List (Pass GetReply)
unserved_gets = record { reply = λ srv. some server_get; next_config = config } ∷ []

abbrev unserved_puts : List (Pass Err)
unserved_puts = record { reply = λ srv. some server_put_append; next_config = config } ∷ []

server_get-unserved_example :
    (get (codes "a") unserved_gets (record { config = config }) ≡ none)
    × (put_append (codes "a") unserved_puts (record { config = config }) ≡ none)
server_get-unserved_example =
    server_get-unserved (codes "a") unserved_gets unserved_puts (record { config = config })
      (λ srv. inr refl, tt) (λ srv. inr refl, tt)
