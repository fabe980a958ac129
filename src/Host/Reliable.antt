-- ===== src/Host/Reliable.antt =====
-- A server that is neither unreliable nor killed, and whose listener does not fail, handles each request
-- that comes once its thread runs, and sends the reply.
use distributed_systems_engi.Base.{◌+◌, ◌≡◌, Bool, true, false, List, [], ◌∷◌, All}
use distributed_systems_engi.Host.{
  Host, Event, arrives, handled, killed, made_unreliable, Service, Open, handle_all, tally,
}
use distributed_systems_engi.Host.Faults.{open_tally}

-- No kill, no failed `Accept`, and the server is not made unreliable.
abbrev pub IsQuiet : {Q : Type 0} → List (Event Q) → Type 0
IsQuiet [] = Unit
IsQuiet (arrives a q ∷ es) = (a.conn ≡ true) × IsQuiet es
IsQuiet (handled k ∷ es) = IsQuiet es
IsQuiet (killed ∷ es) = ⊥
IsQuiet (made_unreliable what ∷ es) = (what ≡ false) × IsQuiet es

abbrev pub AllReply : {Q : Type 0} → List (Open Q) → Type 0
AllReply os = All (λ o. o.replies ≡ true) os

module _ {Q R S : Type 0} (sv : Service Q R S) where
  -- The server has handled requests one after the other, each as often as it came and is no longer open,
  -- and has sent all their replies.
  pub record Answered (qs0 : List Q) (os : List (Open Q)) (s : S) (os' : List (Open Q)) (s' : S)
      (rs : List R) : Type 0 where
    pub qs : List Q
    pub state : s' ≡ (handle_all sv qs s).0
    pub replies : rs ≡ (handle_all sv qs s).1
    pub each : (p : Q → Bool) → tally p qs + open_tally p os' ≡ tally p qs0 + open_tally p os
