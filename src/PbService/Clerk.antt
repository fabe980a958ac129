-- ===== src/PbService/Clerk.antt =====
-- src/pbservice/client.go: a client of the primary/backup service, which asks the view server for
-- the primary and tries again. What each call brings is a list of tries.
use distributed_systems_engi.Base.{
  String, Bool, true, false, Option, none, some, List, [], ◌∷◌, ◌==◌, string_eq, if◌then◌else◌,
}
use distributed_systems_engi.ViewService.{View}
use distributed_systems_engi.PbService.{
  Err, empty, ok, no_key, wrong_server, view_server_down, already_op_id,
}

pub record Clerk : Type 0 where
  pub primary : String

-- `MakeClerk`
abbrev pub make_clerk : Clerk
make_clerk = record { primary = "" }

-- `GetPrimary`, with the view that the view server replies, if it does: whether it is alive.
unfoldable pub get_primary : Option View → Clerk → Clerk × Bool
get_primary none ck = (ck, false)
get_primary (some v) ck = (record ck { primary = v.primary }, true)

-- One pass of the loops: the view server's replies before and after the call, the reply of the
-- primary, with the value where there is one.
pub record Try : Type 0 where
  pub view_before : Option View
  pub reply : Option (Err × String)
  pub view_after : Option View

-- The call at the start of a pass, where the client knows of no primary.
abbrev pub ensure_primary : Option View → Clerk → Clerk
ensure_primary v ck = if ck.primary == "" then (get_primary v ck).0 else ck

-- What `Get` returns: a string, for the errors too.
abbrev pub err_text : Err → String
err_text empty = ""
err_text ok = "OK"
err_text no_key = "ErrNoKey"
err_text wrong_server = "ErrWrongServer"
err_text view_server_down = "ErrViewServerDown"
err_text already_op_id = "ErrAlreadyOpID"

-- A pass after a call that failed, or that met the wrong server: ask for the primary, and go on if
-- the view server is alive.
again {ℓ} :
    {A : Type ℓ} → A → Option View → (Clerk → Option (Clerk × A)) → Clerk → Option (Clerk × A)
again down v rest ck =
    let (ck', live) = get_primary v ck in
    let next = rest ck' in if live then next else some (ck', down)

-- What a pass of `Get` makes of the reply
get_answer :
    Option (Err × String)
    → (Clerk → Option (Clerk × String))
    → (Clerk → Option (Clerk × String))
    → Clerk
    → Option (Clerk × String)
get_answer none failed fresh ck = failed ck
get_answer (some (wrong_server, value)) failed fresh ck = failed ck
get_answer (some (no_key, value)) failed fresh ck = some (ck, err_text no_key)
get_answer (some (ok, value)) failed fresh ck = some (ck, value)
get_answer (some (_, value)) failed fresh ck = fresh ck

-- The loop of `Get`; `none` where it is still in the loop after these tries. After
-- ErrAlreadyOpID the next pass asks under another operation id, which only the call's reply shows.
unfoldable pub get_loop : List Try → Clerk → Option (Clerk × String)
unfolding again get_answer
get_loop [] ck = none
get_loop (t ∷ ts) ck =
    get_answer t.reply (again (err_text view_server_down) t.view_after (get_loop ts)) (get_loop ts)
      (ensure_primary t.view_before ck)

-- What a pass of `PutAppend` makes of the reply
put_answer :
    Option (Err × String)
    → (Clerk → Option (Clerk × Bool))
    → (Clerk → Option (Clerk × Bool))
    → Clerk
    → Option (Clerk × Bool)
put_answer none failed rest ck = failed ck
put_answer (some (wrong_server, value)) failed rest ck = failed ck
put_answer (some (ok, value)) failed rest ck = some (ck, true)
put_answer (some (already_op_id, value)) failed rest ck = some (ck, true)
put_answer (some (_, value)) failed rest ck = rest ck

-- The loop of `PutAppend`, with whether it ended in a served operation; `none` where it is still in
-- the loop. Each try has the same arguments.
unfoldable pub put_loop : List Try → Clerk → Option (Clerk × Bool)
unfolding again put_answer
put_loop [] ck = none
put_loop (t ∷ ts) ck =
    put_answer t.reply (again false t.view_after (put_loop ts)) (put_loop ts)
      (ensure_primary t.view_before ck)
