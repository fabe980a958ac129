-- ===== src/ViewService/Clerk.antt =====
-- src/viewservice/client.go: a client of the view service, over what its one call brings: `none` where
-- the RPC fails.
use distributed_systems_engi.Base.{ℕ, String, Option, none, some}
use distributed_systems_engi.ViewService.{View, PingArgs}

pub record Clerk : Type 0 where
  pub me : String
  pub server : String

-- `MakeClerk`
abbrev pub make_clerk : String → String → Clerk
make_clerk me server = record { me = me; server = server }

-- `Ping`: the view, and an error or none
unfoldable pub ping : ℕ → (PingArgs → String → Option View) → Clerk → Option View
ping viewnum call ck = call (record { me = ck.me; viewnum = viewnum }) ck.server

-- `Get`: the view, and whether the call succeeded
unfoldable pub get : (String → Option View) → Clerk → Option View
get call ck = call ck.server

unfoldable pub primary : (String → Option View) → Clerk → String
unfolding get
primary call ck = elim (get call ck) [ none ↦ "" | some v ↦ v.primary ]

unfoldable pub get_server : Clerk → String
get_server ck = ck.server
